-- ===== src/Bot/Help.antt =====
-- bot/handler.go: the text of the help.
use storage_bot.Base.{[], ◌∷◌, Text, lit, cat, emoji_style}

unfoldable pub help_message : Text
help_message = cat (
    lit "支持中英文自然语言输入。以下命令均可 `@bot` 直接发送：\n\n"
    ∷ lit "**🗂 集群与列表**\n"
    ∷ lit "- `list clusters` / `列表集群` / `有哪些集群`\n"
    ∷ lit "- `list skills` / `有哪些技能`\n\n"
    ∷ lit "**🩺 健康 & 诊断**\n"
    ∷ lit "- 健康检查：`check cluster-01` / `看看01集群怎么了`\n"
    ∷ lit "- 日志分析：`analyze logs cluster-01`\n"
    ∷ lit "- 节点诊断：`check node-1 cluster-01`\n\n"
    ∷ lit "**🔍 集群巡检**（Ceph 状态 + 节点硬件，结构化报告）\n"
    ∷ lit "- 单集群：`巡检 cluster-01` / `inspect cluster-01` / `体检 cluster-01`\n"
    ∷ lit "- 全部集群：`巡检所有集群` / `inspect all clusters`\n"
    ∷ lit "- 查看巡检项：`巡检项` / `list inspect`\n"
    ∷ lit "**⚙"
    ∷ emoji_style
    ∷ lit " Skill 执行**\n"
    ∷ lit "- 单集群：`osd cluster-01` / `cluster-02 容量`\n"
    ∷ lit "- 批量（仅 set/unset nobackfill/noout）：\n"
    ∷ lit "  - 前缀匹配：`set nobackfill cdn`\n"
    ∷ lit "  - 全量：`set nobackfill all`\n"
    ∷ lit "  - 全量排除：`set nobackfill all except cdn-test cdn-staging`\n\n"
    ∷ lit "**💽 磁盘 IO**\n"
    ∷ lit "- 所有节点：`iostat cdn`\n"
    ∷ lit "- 指定节点：`iostat cdn bd-cdn-node02`\n\n"
    ∷ lit "**🐧 节点诊断（kernel / 网卡 / bond）**\n"
    ∷ lit "- 内核日志（默认 200 条，已过滤 systemd/kubelet 等）：`kernel cdn bd-cdn-node02`\n"
    ∷ lit "  - 指定条数：`kernel cdn bd-cdn-node02 n=500`\n"
    ∷ lit "  - 指定关键字：`kernel cdn bd-cdn-node02 keyword=link`\n"
    ∷ lit "- 网卡列表（ip link）：`nic cdn bd-cdn-node02` / `网卡 cdn bd-cdn-node02`\n"
    ∷ lit "- Bond 状态（汇总每个 slave 的 Link Failure Count，非零标 ⚠）：`bond cdn bd-cdn-node02`\n"
    ∷ lit
        "- 硬件信息（供应商/序列号 + bond 网卡驱动/version/firmware，表格）：`硬件信息 cdn` / `hw info cdn bd-cdn-node02`\n"
    ∷ lit "  - CSV 格式输出：`hw info cdn --csv` / `硬件信息 cdn csv`\n"
    ∷ lit "- ⬇"
    ∷ emoji_style
    ∷ lit " Down 单个网口（删 link，写操作需 `--yes`；前置校验 bond 内两口均 up，避免双口断网）\n"
    ∷ lit "  - 预览：`nic down cdn bd-cdn-node02 eth0`（显示将 down 的口，不执行）\n"
    ∷ lit "  - 执行：`nic down cdn bd-cdn-node02 eth0 --yes`\n"
    ∷ lit "- ⬆"
    ∷ emoji_style
    ∷ lit " Up 单个网口（恢复 link，写操作需 `--yes`；前置校验网口属于 bond）\n"
    ∷ lit "  - 预览：`nic up cdn bd-cdn-node02 eth0`\n"
    ∷ lit "  - 执行：`nic up cdn bd-cdn-node02 eth0 --yes`\n\n"
    ∷ lit "**📈 RGW PG 优化**\n"
    ∷ lit "- `optimize rgw cluster-01`（默认 max=100）\n"
    ∷ lit "- `optimize rgw cluster-01 max=50`\n\n"
    ∷ lit "**♻"
    ∷ emoji_style
    ∷ lit " 重启 mon / mgr**（删除 pod，rook 自动重建；写操作需 `--yes`）\n"
    ∷ lit "- 列出候选：`重启 mon cluster-01` / `restart mgr cluster-01`\n"
    ∷ lit "- 预览：`重启 mon a cluster-01`（显示将删的 pod，不执行）\n"
    ∷ lit "- 执行：`重启 mon a cluster-01 --yes` / `restart mgr b cluster-01 --yes`\n\n"
    ∷ lit "**🤖 LLM 开关**\n"
    ∷ lit "- `enable llm` / `开启llm`\n"
    ∷ lit "- `disable llm` / `关闭llm`\n\n"
    ∷ lit "**📦 焱融(yrfs) 存储**（按 `rest_storages` 名称路由，如 `yrfs01`）\n"
    ∷ lit "- 集群信息：`yrfs01` / `yrfs01 info`\n"
    ∷ lit "- 健康状态：`yrfs01 health`\n"
    ∷ lit "- 配额列表：`yrfs01 quotas`\n"
    ∷ lit "- 精确路径：`yrfs01 usage /drtraining/user/liangzheng`\n"
    ∷ lit "- 用户目录：`yrfs01 user liangzheng`（默认 private）\n"
    ∷ lit "  - 公共目录：`yrfs01 user liangzheng public`\n"
    ∷ lit "- 回收站列表：`yrfs01 recycles`\n"
    ∷ lit "- 回收站文件：`yrfs01 recycle files /public-data/user/xxx`\n"
    ∷ lit "- 清空回收站：`yrfs01 recycle clear /public-data/user/xxx`（默认 dry-run）\n"
    ∷ lit "  - 真实清空：`yrfs01 recycle clear /public-data/user/xxx --yes`\n"
    ∷ lit "  - ⚠"
    ∷ emoji_style
    ∷ lit " `--yes` 仅允许 **公共/私有个人目录** 下的路径，其他路径会被拒绝\n\n"
    ∷ lit "**💡 示例**\n"
    ∷ lit "```\n"
    ∷ lit "@bot 帮我看看cluster-01的状态\n"
    ∷ lit "@bot 巡检 cluster-01\n"
    ∷ lit "@bot 分析一下cluster-02的日志\n"
    ∷ lit "@bot iostat cdn bd-cdn-node02\n"
    ∷ lit "@bot kernel cdn bd-cdn-node02 keyword=link\n"
    ∷ lit "@bot nic down cdn bd-cdn-node02 eth0 --yes\n"
    ∷ lit "@bot nic up cdn bd-cdn-node02 eth0 --yes\n"
    ∷ lit "@bot 重启 mon a cluster-01 --yes\n"
    ∷ lit "@bot set nobackfill all except cdn-test\n"
    ∷ lit "@bot optimize rgw cluster-01 max=100\n"
    ∷ lit "@bot yrfs01 user liangzheng private\n"
    ∷ lit "@bot yrfs01 quotas\n"
    ∷ lit "@bot yrfs01 recycles\n"
    ∷ lit "@bot yrfs01 recycle clear /public-data/user/liangzheng/tmp --yes\n"
    ∷ lit "```"
    ∷ [])
