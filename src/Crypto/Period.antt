-- ===== src/Crypto/Period.antt =====
-- `checkProofTime`, `checkDocumentTime` and `checkSignerBinding` of sdk/typescript/src/crypto.ts.
pub mod Timely
use oati.Prelude.{
  ℕ, ◌+◌, ◌≤◌, ◌<◌, Bool, true, false, not, ◌&&◌, ◌||◌, List, [], ◌∷◌, ◌++◌, Option, none, some,
  ◌≡◌, refl, ltb, leb, arith, if◌then◌else◌, Text, text, ◌==◌, ==_iff, ◌⊎◌, inl, inr, Bool-cases,
}
use oati.Json.{Json, str, Fields, get}
use oati.Evaluator.Conditions.{Runtime}
use oati.Crypto.Types.{Issues, issue}

-- `if (test) issue(issues, code, message)`
unfoldable pub issue_if : Bool → Text → Text → Issues → Issues
unfolding issue
issue_if test code message issues = if test then issue code message issues else issues

-- The instants of a proof that could be read, in the order of the source.
unfoldable pub check_window : ℕ → ℕ → ℕ → ℕ → ℕ → Issues → Issues
unfolding issue_if
check_window created expires now skew max_age issues =
    issue_if (ltb (max_age + skew + created) now) (text "PROOF_TOO_OLD")
      (text "proof exceeds the maximum accepted age")
      (issue_if (leb (expires + skew) now) (text "PROOF_EXPIRED") (text "proof has expired") (
        issue_if (ltb (now + skew) created) (text "PROOF_NOT_YET_VALID")
          (text "proof creation time is in the future") issues))

unfoldable pub malformed_times : Issues → Issues
unfolding issue
malformed_times issues = issue (text "PROOF_MALFORMED") (text "proof timestamps are invalid") issues

unfoldable pub check_instants : Option ℕ → Option ℕ → ℕ → ℕ → ℕ → Issues → Issues
unfolding check_window malformed_times
check_instants (some created) (some expires) now skew max_age issues =
    if leb expires created
    then malformed_times issues
    else check_window created expires now skew max_age issues
check_instants _ _ now skew max_age issues = malformed_times issues

-- `checkProofTime`, of a proof's `created` and `expires`
unfoldable pub check_proof_time : Runtime → Text → Text → ℕ → ℕ → ℕ → Issues → Issues
unfolding check_instants
check_proof_time rt created expires now skew max_age issues =
    check_instants (rt.parse_date created) (rt.parse_date expires) now skew max_age issues

-- `typeof document[key] === "string" ? document[key] : other`
unfoldable pub string_or : Option Json → Option Text → Option Text
string_or (some (str s)) other = some s
string_or _ other = other

abbrev pub start_of : Fields → Option Text
start_of document =
    string_or (get document (text "not_before")) (string_or (get document (text "issued_at")) none)

abbrev pub end_of : Fields → Option Text
end_of document = string_or (get document (text "expires_at")) none

-- `start !== undefined && (Number.isNaN(start) || start > now + skew)`, and likewise for the end
unfoldable pub starts_late : Runtime → Option Text → ℕ → ℕ → Bool
starts_late rt none now skew = false
starts_late rt (some s) now skew = elim (rt.parse_date s) [
  | none ↦ true
  | some start ↦ ltb (now + skew) start
]

unfoldable pub ended : Runtime → Option Text → ℕ → ℕ → Bool
ended rt none now skew = false
ended rt (some s) now skew = elim (rt.parse_date s) [
  | none ↦ true
  | some until ↦ leb (until + skew) now
]

unfoldable pub check_document_time : Runtime → Fields → ℕ → ℕ → Issues → Issues
unfolding issue_if starts_late ended string_or
check_document_time rt document now skew issues =
    issue_if (ended rt (end_of document) now skew) (text "DOCUMENT_EXPIRED")
      (text "document has expired")
      (issue_if (starts_late rt (start_of document) now skew) (text "DOCUMENT_NOT_YET_VALID")
        (text "document is not active yet") issues)

-- The document's `issuer`, or its `agent_id`.
abbrev pub claimed_signer : Fields → Option Text
claimed_signer document =
    string_or (get document (text "issuer")) (string_or (get document (text "agent_id")) none)

abbrev pub unbound : Option Text → Text → Text → Bool
unbound none controller issuer = false
unbound (some []) controller issuer = false
unbound (some (c ∷ s)) controller issuer = not ((c ∷ s) == controller) && not ((c ∷ s) == issuer)

abbrev shown : Option Text → Text
shown none = []
shown (some s) = s

-- `checkSignerBinding`, of a key's controller and issuer
unfoldable pub check_signer_binding : Fields → Text → Text → Issues → Issues
unfolding issue_if string_or
check_signer_binding document controller issuer issues =
    issue_if (unbound (claimed_signer document) controller issuer) (text "KEY_INVALID")
      (text "key controller "
        ++ controller
        ++ text " is not bound to document signer "
        ++ shown (claimed_signer document))
      issues
