-- ===== src/Bot/Items.antt =====
-- bot/handler.go: listInspectItems, with Items of inspect/runner.go.
use storage_bot.Base.{
  ◌+◌, ◌==◌, ℕ, List, [], ◌∷◌, ◌++◌, Text, lit, cat, if◌then◌else◌, Option, none, some, length,
  wide_space,
}
use storage_bot.Base.Int.{pos}
use storage_bot.Base.Decimal.{itoa}
use storage_bot.Inspect.Inspectors.{Inspector, cluster_scope, node_scope, by_scope}
use storage_bot.Inspect.Whole.{Runner}

module _ {W F : Type 0} where
  item_lines : Text → List (Inspector W F) → Text
  item_lines mark [] = []
  item_lines mark (i ∷ is) =
      cat (
        wide_space
        ∷ mark
        ∷ i.name
        ∷ lit "` — "
        ∷ i.description
        ∷ lit "\n"
        ∷ item_lines mark is
        ∷ [])

  item_group : Text → Text → List (Inspector W F) → Text
  unfolding item_lines
  item_group heading mark [] = []
  item_group heading mark (i ∷ is) = heading ++ item_lines mark (i ∷ is)

  items_text : ℕ → List (Inspector W F) → List (Inspector W F) → Text
  unfolding item_group
  items_text n cluster node =
      if length cluster + length node == 0
      then lit "🚫 当前没有注册任何巡检项"
      else cat (
          lit "🔍 巡检共 **"
          ∷ itoa (pos n)
          ∷ lit "** 项（`巡检 cluster-01` 执行）\n"
          ∷ item_group (lit "\n**🛰 集群级**（每集群一次，走 ceph 命令）\n") (lit "🔹 `") cluster
          ∷ item_group (lit "\n**🖥 节点级**（每节点一次，走 SSH）\n") (lit "🔸 `") node
          ∷ [])

module _ {W K F : Type 0} where
  unfoldable pub list_inspect_items : Option (Runner W K F) → Text
  unfolding items_text
  list_inspect_items none = lit "巡检功能未启用（设置 config inspect.enabled: true）"
  list_inspect_items (some rn) =
      let cluster = by_scope cluster_scope rn.registry in
      let node = by_scope node_scope rn.registry in
      items_text (length cluster + length node) cluster node
