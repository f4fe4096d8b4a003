-- ===== src/Inspect/Render.antt =====
-- inspect/report.go: the report as text, and the color of its card. `when` is the printed time.
use storage_bot.Base.{
  ℕ, Bool, false, not, List, [], ◌∷◌, ◌++◌, Text, lit, cat, text_eq, text_lt, if◌then◌else◌, ltb,
}
use storage_bot.Base.Int.{pos}
use storage_bot.Base.Decimal.{itoa}
use storage_bot.Inspect.Level.{
  Level, level_ok, level_warn, level_critical, level_unknown, string, emoji, Finding, Report,
  Counts, counts, abnormal,
}

pub record NodeGroup : Type 0 where
  pub node : Text
  pub node_ip : Text
  pub findings : List Finding

-- Into the group of its node, which is opened if it is not there.
into_groups : Finding → List NodeGroup → List NodeGroup
into_groups f [] = record { node = f.node; node_ip = f.node_ip; findings = f ∷ [] } ∷ []
into_groups f (g ∷ gs) =
    let further = into_groups f gs in
    if text_eq g.node f.node then record g { findings = g.findings ++ f ∷ [] } ∷ gs else g ∷ further

grouped : List Finding → List NodeGroup → List NodeGroup
unfolding into_groups
grouped [] gs = gs
grouped (f ∷ fs) gs = grouped fs (into_groups f gs)

-- The group of the cluster comes first.
is_before : NodeGroup → NodeGroup → Bool
is_before a b =
    if text_eq a.node []
    then not (text_eq b.node [])
    else (if text_eq b.node [] then false else text_lt a.node b.node)

insert_group : NodeGroup → List NodeGroup → List NodeGroup
unfolding is_before
insert_group g [] = g ∷ []
insert_group g (h ∷ hs) =
    let further = insert_group g hs in if is_before h g then h ∷ further else g ∷ h ∷ hs

sort_groups : List NodeGroup → List NodeGroup
unfolding insert_group
sort_groups [] = []
sort_groups (g ∷ gs) = insert_group g (sort_groups gs)

unfoldable pub abnormal_by_node : Report → List NodeGroup
unfolding grouped sort_groups
abnormal_by_node r = sort_groups (grouped (abnormal r) [])

unfoldable pub node_group_header : NodeGroup → Text
node_group_header g =
    if text_eq g.node []
    then lit "📦 **集群级**"
    else (if not (text_eq g.node_ip [])
        then cat (lit "🖥 **" ∷ g.node ∷ lit "**（" ∷ g.node_ip ∷ lit "）" ∷ [])
        else cat (lit "🖥 **" ∷ g.node ∷ lit "**" ∷ []))

unfoldable pub item_label : Finding → Text
item_label f =
    if not (text_eq f.node [])
    then (if not (text_eq f.node_ip [])
        then cat (f.item ∷ lit " · " ∷ f.node ∷ lit "(" ∷ f.node_ip ∷ lit ")" ∷ [])
        else cat (f.item ∷ lit " · " ∷ f.node ∷ []))
    else f.item

finding_text : Finding → Text
finding_text f =
    let line = cat (emoji f.level ∷ lit " `" ∷ f.item ∷ lit "` — " ∷ f.summary ∷ lit "\n" ∷ []) in
    if text_eq f.advice [] then line else cat (line ∷ lit "    建议：" ∷ f.advice ∷ lit "\n" ∷ [])

findings_text : List Finding → Text
unfolding finding_text
findings_text [] = []
findings_text (f ∷ fs) = finding_text f ++ findings_text fs

group_text : NodeGroup → Text
unfolding findings_text
group_text g = cat (node_group_header g ∷ lit "\n" ∷ findings_text g.findings ∷ [])

groups_text : List NodeGroup → Text
unfolding group_text
groups_text [] = []
groups_text (g ∷ []) = group_text g
groups_text (g ∷ h ∷ gs) = cat (group_text g ∷ lit "\n---\n" ∷ groups_text (h ∷ gs) ∷ [])

body_text : ℕ → List NodeGroup → Text
unfolding groups_text
body_text well [] = lit "✅ 全部正常\n"
body_text well (g ∷ gs) = cat (
    groups_text (g ∷ gs)
    ∷ (if ltb 0 well then cat (lit "\n🟢 其余 " ∷ itoa (pos well) ∷ lit " 项正常\n" ∷ []) else [])
    ∷ [])

stat_text : Counts → Text
stat_text c = cat (
    lit "🔴"
    ∷ itoa (pos c.crit_count)
    ∷ lit " 🟡"
    ∷ itoa (pos c.warn_count)
    ∷ lit " 🟢"
    ∷ itoa (pos c.ok_count)
    ∷ (if ltb 0 c.unknown_count then lit " ⚪" ++ itoa (pos c.unknown_count) else [])
    ∷ [])

unfoldable pub render_text : (ℕ → Text) → Report → Text
unfolding body_text stat_text
render_text when r = cat (
    lit "**集群巡检 · "
    ∷ r.cluster
    ∷ lit "**\n总体："
    ∷ string r.overall
    ∷ lit " · "
    ∷ stat_text (counts r)
    ∷ lit " · "
    ∷ when r.started_at
    ∷ lit "\n\n"
    ∷ body_text (counts r).ok_count (abnormal_by_node r)
    ∷ (if text_eq r.llm_summary [] then [] else cat (lit "\n🤖 " ∷ r.llm_summary ∷ lit "\n" ∷ []))
    ∷ [])

pub data Theme : Type 0 where
  theme_blue theme_green theme_red theme_orange theme_gray theme_turquoise theme_purple : Theme

unfoldable pub theme_for_level : Level → Theme
theme_for_level level_critical = theme_red
theme_for_level level_warn = theme_orange
theme_for_level level_ok = theme_green
theme_for_level level_unknown = theme_green
