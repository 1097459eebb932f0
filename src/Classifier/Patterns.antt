-- ===== src/Classifier/Patterns.antt =====
-- src/parser/classifier.rs: the pattern groups, as written there.
use automated_flywheel_setup.Base.{String, List, [], ◌∷◌}

-- `TIMEOUT_PATTERNS`
unfoldable pub timeout_patterns : List String
timeout_patterns = "(?i)\\btest timed out after" ∷ []

-- `SYNTAX_PATTERNS`
unfoldable pub syntax_patterns : List String
syntax_patterns = "(?i)syntax error" ∷ "(?i)unexpected token" ∷ "(?i)parse error" ∷ []

-- `BOOTSTRAP_PATTERNS`
unfoldable pub bootstrap_patterns : List String
bootstrap_patterns =
    "(?i)bootstrap.*mismatch" ∷ "(?i)bootstrap.*verification.*failed" ∷ "(?i)manifest.*mismatch"
    ∷ "(?i)expected.*bootstrap.*actual" ∷ []

-- `CHECKSUM_PATTERNS`
unfoldable pub checksum_patterns : List String
checksum_patterns =
    "(?i)checksum.*mismatch" ∷ "(?i)checksum.*verification.*failed"
    ∷ "(?i)checksum.*did\\s+not\\s+match" ∷ "(?i)sha256.*mismatch"
    ∷ "(?i)hash.*verification.*failed" ∷ "(?i)expected.*hash.*got" ∷ "(?i)integrity.*check.*failed"
    ∷ []

-- `NETWORK_PATTERNS`
unfoldable pub network_patterns : List String
network_patterns =
    "(?i)connection refused" ∷ "(?i)connection timed out" ∷ "(?i)network unreachable"
    ∷ "(?i)name or service not known" ∷ "(?i)temporary failure in name resolution"
    ∷ "(?i)could not resolve host" ∷ "(?i)api rate limit exceeded" ∷ "(?i)rate limit"
    ∷ "(?i)too many requests" ∷ "(?i)\\b429\\b" ∷ "(?i)\\b5(00|02|03)\\b" ∷ "(?i)curl.*failed"
    ∷ "(?i)wget.*failed" ∷ "(?i)curl: \\(\\d+\\)"
    ∷ "(?i)ssl_connect|ssl handshake|ssl certificate problem|certificate verify failed"
    ∷ "(?i)connection reset by peer" ∷ "(?i)tls handshake" ∷ "(?i)unable to fetch some archives"
    ∷ "(?i)could not fetch release info" ∷ "(?i)ssl certificate problem"
    ∷ "(?i)unable to acquire.*lock" ∷ "(?i)dpkg.*lock" ∷ "(?i)apt.*lock" ∷ []

-- `APT_REPAIR_PATTERNS`
unfoldable pub apt_repair_patterns : List String
apt_repair_patterns =
    "(?i)dpkg\\s+--configure\\s+-a\\s+failed" ∷ "(?i)apt-get\\s+-f\\s+install\\s+failed"
    ∷ "(?i)apt\\s+repair.*failed" ∷ "(?i)dpkg\\s+repair.*failed" ∷ "(?i)unmet dependencies"
    ∷ "(?i)held broken packages" ∷ "(?i)dpkg was interrupted" ∷ "(?i)dpkg --configure -a"
    ∷ "(?i)try ['`]?(apt|apt-get)\\s+(--fix-broken|-f)\\s+install"
    ∷ "(?i)you might want to run ['`]?(apt|apt-get)\\s+(--fix-broken|-f)\\s+install" ∷ []

-- `ROOT_REFUSAL_PATTERNS`
unfoldable pub root_refusal_patterns : List String
root_refusal_patterns =
    "(?i)don'?t run (this|the) (script|installer) as root"
    ∷ "(?i)do not run (this|the) (script|installer) as root" ∷ "(?i)must not be run as root"
    ∷ "(?i)should not be run as root" ∷ "(?i)refus\\w* to run as root"
    ∷ "(?i)running as root is not (supported|allowed)"
    ∷ "(?i)please run as a (regular|normal|non-root) user" ∷ []

-- `PERMISSION_PATTERNS`
unfoldable pub permission_patterns : List String
permission_patterns =
    "(?i)permission denied" ∷ "(?i)operation not permitted" ∷ "(?i)access denied" ∷ "EACCES" ∷ []

-- `DEPENDENCY_PATTERNS`
unfoldable pub dependency_patterns : List String
dependency_patterns =
    "(?i)command not found"
    ∷ "(?i)is required (to|for|by) [^\n]{0,80}(was )?not (found|installed|available)"
    ∷ "(?i)required tool[^\n]{0,40}(missing|not found)" ∷ "(?i)package.*not found"
    ∷ "(?i)unable to locate package" ∷ "(?i)no such file or directory" ∷ "(?i)missing dependency"
    ∷ []

-- `RESOURCE_PATTERNS`
unfoldable pub resource_patterns : List String
resource_patterns =
    "(?i)no space left on device" ∷ "(?i)out of memory" ∷ "(?i)cannot allocate memory"
    ∷ "(?i)disk quota exceeded" ∷ []

-- `LIBC_PATTERNS`
unfoldable pub libc_patterns : List String
libc_patterns =
    "GLIBC_\\d+\\.\\d+'? not found" ∷ "GLIBCXX_\\d+\\.\\d+(\\.\\d+)?'? not found"
    ∷ "(?i)version `?GLIBC[A-Z_]*\\d" ∷ []

-- `APT_LOCK_PATTERNS`
unfoldable pub apt_lock_patterns : List String
apt_lock_patterns =
    "(?i)could not get lock /var/lib/(dpkg|apt)" ∷ "(?i)unable to acquire the dpkg frontend lock"
    ∷ "(?i)unable to lock the administration directory" ∷ []

-- `OOM_PATTERNS`
unfoldable pub oom_patterns : List String
oom_patterns =
    "(?i)\\bout of memory\\b" ∷ "(?i)\\bOOM[- ]?killed?\\b" ∷ "(?i)cannot allocate memory"
    ∷ "(?i)memory ?error" ∷ []
