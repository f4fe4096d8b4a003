-- ===== src/Security/Patterns.antt =====
-- security/validator.go: the regular expressions. Under (?i) the letters of a pattern are matched in
-- both ASCII cases; the two non-ASCII characters that Go folds to `k` and `s` are left out.
use storage_bot.Base.{
  not, ◌&&◌, ◌||◌, List, [], ◌∷◌, ◌++◌, String, Text, lit, ◌==◌, leb, lower_byte,
}
use storage_bot.Regex.{Class, Re, empty, word_edge, one, many, seq, alt}

infixr 66 ◌&◌
abbrev pub ◌&◌ : Re → Re → Re
◌&◌ = seq

-- A text in either case.
unfoldable pub either_case : Text → Re
either_case [] = empty
either_case (c ∷ s) = seq (one (λ x. lower_byte x == c)) (either_case s)

abbrev i : String → Re
i s = either_case (lit s)

-- \b, \s* and \s+, .* and [a-z]* of the patterns.
abbrev b : Re
b = word_edge

abbrev is_blank : Class
is_blank x = x == 9 || x == 10 || x == 12 || x == 13 || x == 32

abbrev s0 : Re
s0 = many is_blank

abbrev s1 : Re
s1 = one is_blank & s0

abbrev dots : Re
dots = many (λ x. not (x == b'\n'))

abbrev letters : Re
letters = many (λ x. leb b'a' (lower_byte x) && leb (lower_byte x) b'z')

abbrev any_of : Re → List Re → Re
any_of r [] = r
any_of r (q ∷ qs) = alt r (any_of q qs)

-- A pattern as it is written, which an error shows, with its expression.
pub record Pattern : Type 0 where
  pub source : Text
  pub re : Re

abbrev pattern_of : String → Re → Pattern
pattern_of source re = record { source = lit source; re = re }

-- The word alone, bounded on both sides.
unfoldable pub bare_word : Text → Re
unfolding either_case
bare_word w = b & either_case w & b

abbrev bare : String → Pattern
bare w = record { source = lit "(?i)\\b" ++ lit w ++ lit "\\b"; re = bare_word (lit w) }

abbrev chained : Re
chained = any_of (i "rm") (i "mkfs" ∷ i "dd" ∷ i "shutdown" ∷ i "reboot" ∷ [])

abbrev piped : Re
piped = any_of (i "rm") (i "mkfs" ∷ i "dd" ∷ i "shutdown" ∷ i "reboot" ∷ i "bash" ∷ [])

abbrev sh_pipe : Re
sh_pipe = dots & i "|" & s0 & alt (i "ba") empty & i "sh" & b

unfoldable pub dangerous_patterns : List Pattern
unfolding either_case bare_word
dangerous_patterns =
    pattern_of "(?i)\\brm\\s+-rf\\b" (b & i "rm" & s1 & i "-rf" & b)
    ∷ pattern_of "(?i)\\brm\\s+-fr\\b" (b & i "rm" & s1 & i "-fr" & b)
    ∷ pattern_of "(?i)\\brm\\s+(-[a-z]*f[a-z]*)\\s+/"
        (b & i "rm" & s1 & i "-" & letters & i "f" & letters & s1 & i "/")
    ∷ bare "mkfs"
    ∷ pattern_of "(?i)\\bdd\\s+.*\\bof=/dev/" (b & i "dd" & s1 & dots & b & i "of=/dev/")
    ∷ bare "format"
    ∷ pattern_of "(?i)>\\s*/dev/sd" (i ">" & s0 & i "/dev/sd")
    ∷ bare "shutdown"
    ∷ bare "reboot"
    ∷ bare "halt"
    ∷ pattern_of "(?i)\\binit\\s+0\\b" (b & i "init" & s1 & i "0" & b)
    ∷ bare "poweroff"
    ∷ pattern_of "(?i)\\bsystemctl\\s+(stop|disable|mask)\\b"
        (b & i "systemctl" & s1 & any_of (i "stop") (i "disable" ∷ i "mask" ∷ []) & b)
    ∷ pattern_of "(?i)\\bkill\\s+-9\\b" (b & i "kill" & s1 & i "-9" & b)
    ∷ bare "killall"
    ∷ bare "pkill"
    ∷ pattern_of "(?i)\\biptables\\s+-F\\b" (b & i "iptables" & s1 & i "-f" & b)
    ∷ pattern_of "(?i)\\biptables\\s+.*-D\\b" (b & i "iptables" & s1 & dots & i "-d" & b)
    ∷ bare "useradd"
    ∷ bare "userdel"
    ∷ bare "passwd"
    ∷ pattern_of "(?i)\\bchmod\\s+777\\b" (b & i "chmod" & s1 & i "777" & b)
    ∷ pattern_of "(?i)\\bchown\\b.*\\s+/" (b & i "chown" & b & dots & s1 & i "/")
    ∷ pattern_of "(?i)\\bcurl\\b.*\\|\\s*(ba)?sh\\b" (b & i "curl" & b & sh_pipe)
    ∷ pattern_of "(?i)\\bwget\\b.*\\|\\s*(ba)?sh\\b" (b & i "wget" & b & sh_pipe)
    ∷ bare "eval"
    ∷ pattern_of "(?i)\\bexec\\b.*</dev/tcp" (b & i "exec" & b & dots & i "</dev/tcp")
    ∷ pattern_of "(?i)\\bnc\\s+-[a-z]*l" (b & i "nc" & s1 & i "-" & letters & i "l")
    ∷ pattern_of "(?i)\\bpython\\b.*-c\\b" (b & i "python" & b & dots & i "-c" & b)
    ∷ pattern_of "(?i)\\bperl\\b.*-e\\b" (b & i "perl" & b & dots & i "-e" & b)
    ∷ pattern_of "(?i)\\bruby\\b.*-e\\b" (b & i "ruby" & b & dots & i "-e" & b)
    ∷ pattern_of "(?i);\\s*\\b(rm|mkfs|dd|shutdown|reboot)\\b" (i ";" & s0 & b & chained & b)
    ∷ pattern_of "(?i)\\|\\s*\\b(rm|mkfs|dd|shutdown|reboot|bash)\\b" (i "|" & s0 & b & piped & b)
    ∷ pattern_of "(?i)\\bceph\\s+osd\\s+(destroy|purge|rm)\\b"
        (b & i "ceph" & s1 & i "osd" & s1 & any_of (i "destroy") (i "purge" ∷ i "rm" ∷ []) & b)
    ∷ pattern_of "(?i)\\bceph\\s+osd\\s+pool\\s+(delete|rm)\\b"
        (b & i "ceph" & s1 & i "osd" & s1 & i "pool" & s1 & alt (i "delete") (i "rm") & b)
    ∷ pattern_of "(?i)\\bceph\\s+mon\\s+remove\\b"
        (b & i "ceph" & s1 & i "mon" & s1 & i "remove" & b)
    ∷ pattern_of "(?i)\\bceph\\s+mds\\s+fail\\b" (b & i "ceph" & s1 & i "mds" & s1 & i "fail" & b)
    ∷ pattern_of "(?i)\\bceph\\s+fs\\s+rm\\b" (b & i "ceph" & s1 & i "fs" & s1 & i "rm" & b)
    ∷ pattern_of "(?i)\\bceph\\s+auth\\s+del\\b" (b & i "ceph" & s1 & i "auth" & s1 & i "del" & b)
    ∷ pattern_of "(?i)\\brbd\\s+rm\\b" (b & i "rbd" & s1 & i "rm" & b)
    ∷ pattern_of "(?i)\\brados\\s+rmpool\\b" (b & i "rados" & s1 & i "rmpool" & b)
    ∷ pattern_of "(?i)\\brados\\s+purge\\b" (b & i "rados" & s1 & i "purge" & b)
    ∷ []

-- [`$;|&(){}\[\]!><]
unfoldable pub shell_meta_chars : Re
shell_meta_chars = one (λ x.
    x == 0x60
    || x == b'$'
    || x == b';'
    || x == b'|'
    || x == b'&'
    || x == b'('
    || x == b')'
    || x == b'{'
    || x == b'}'
    || x == b'['
    || x == b']'
    || x == b'!'
    || x == b'>'
    || x == b'<')
