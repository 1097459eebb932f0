-- ===== src/Reporting/Redact.antt =====
-- src/reporting/redact.rs: secrets are replaced in captured output. What the `regex` crate does is
-- an interface, with the documented law that replacing where nothing matches changes nothing.
use automated_flywheel_setup.Base.{
  String, ◌≡◌, refl, ap, ◌∙◌, Bool, false, ◌||◌, List, [], ◌∷◌, arith, concat, any, keep,
  if◌then◌else◌, ◌==ₛ◌,
}

-- `struct Rule`
pub record Rule : Type 0 where
  pub kind : String
  pub pattern : String

-- `replace_all` of every match by the marker, and by the match's first group and the marker.
pub record Replacer : Type 0 where
  pub compiles : String → Bool
  pub is_match : String → String → Bool
  pub replace_all : (pattern text marker : String) → String
  pub replace_value : (pattern text marker : String) → String
  pub replace_all-no_match : (p t m : String) → is_match p t ≡ false → replace_all p t m ≡ t
  pub replace_value-no_match : (p t m : String) → is_match p t ≡ false → replace_value p t m ≡ t

-- `RULES`
unfoldable pub rules : List Rule
rules =
    record { kind = "github_token"; pattern = "\\b(?:ghp|gho|ghu|ghs|ghr)_[A-Za-z0-9]{20}\\b" }
    ∷ record { kind = "github_pat"; pattern = "\\bgithub_pat_[A-Za-z0-9_]{20}\\b" }
    ∷ record { kind = "slack_token"; pattern = "\\bxox[abpsr]-[A-Za-z0-9-]{10}\\b" }
    ∷ record {
      kind = "slack_webhook";
      pattern = "https://hooks\\.slack\\.com/services/[A-Za-z0-9/_-]+";
    }
    ∷ record { kind = "aws_access_key"; pattern = "\\b(?:AKIA|ASIA)[0-9A-Z]{16}\\b" }
    ∷ record { kind = "api_key"; pattern = "\\bsk-(?:ant-|proj-)?[A-Za-z0-9_-]{16}\\b" }
    ∷ record {
      kind = "private_key";
      pattern = "-----BEGIN [A-Z ]*PRIVATE KEY-----[\\s\\S]*?-----END [A-Z ]*PRIVATE KEY-----";
    }
    ∷ record {
      kind = "authorization";
      pattern = "(?i)\\b(authorization\\s*:\\s*(?:bearer|basic|token)\\s+)[A-Za-z0-9._~+/=-]{8}";
    }
    ∷ record {
      kind = "secret_assignment";
      pattern =
          "(?i)\\b((?:[A-Z0-9_]*_)?(?:token|password|passwd|secret|api[_-]?key|access[_-]?key)s?\\s*[=:]\\s*[\"']?)([^\\s\"'&;]{6})";
    }
    ∷ []

-- The rules whose patterns compile.
unfoldable pub compiled_rules : Replacer → List Rule
unfolding rules
compiled_rules r = keep (λ rule. r.compiles rule.pattern) rules

-- One round of the loop of `redact`.
unfoldable pub apply_rule : Replacer → Rule → String → String
apply_rule r rule out =
    let marker = concat ("[redacted:" ∷ rule.kind ∷ "]" ∷ []) in
    if rule.kind ==ₛ "authorization" || rule.kind ==ₛ "secret_assignment"
    then r.replace_value rule.pattern out marker
    else r.replace_all rule.pattern out marker

unfoldable pub redact_by : Replacer → List Rule → String → String
redact_by r [] out = out
redact_by r (rule ∷ rest) out = redact_by r rest (apply_rule r rule out)

unfoldable pub redact : Replacer → String → String
redact r text = redact_by r (compiled_rules r) text

unfoldable pub contains_secret : Replacer → String → Bool
contains_secret r text = any (λ rule. r.is_match rule.pattern text) (compiled_rules r)

redact_by-no_match :
    (r : Replacer) (rs : List Rule) (text : String)
    → any (λ rule. r.is_match rule.pattern text) rs ≡ false
    → redact_by r rs text ≡ text
unfolding redact_by
redact_by-no_match r [] text h = refl
redact_by-no_match r (rule ∷ rest) text h =
    let same : apply_rule r rule text ≡ text = one in
    ap (redact_by r rest) same ∙ redact_by-no_match r rest text (ground arith)
  where
    one : apply_rule r rule text ≡ text
    one =
        unfold apply_rule in
        ground (
          arith,
          r.replace_value-no_match rule.pattern text (concat ("[redacted:" ∷ rule.kind ∷ "]" ∷ [])),
          r.replace_all-no_match rule.pattern text (concat ("[redacted:" ∷ rule.kind ∷ "]" ∷ [])),
        )

-- A text in which no rule finds a secret is persisted as it was captured.
pub redact-contains_secret :
    (r : Replacer) (text : String) → contains_secret r text ≡ false → redact r text ≡ text
unfolding redact contains_secret
redact-contains_secret r text h = redact_by-no_match r (compiled_rules r) text h
