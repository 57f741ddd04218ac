-- ===== src/Gateway/QueryState.antt =====
-- xtrinode/internal/trino/querystate/querystate.go. `upper_trim` is Go's
-- `strings.ToUpper(strings.TrimSpace(state))`.
use xtrinode.Shared.{String, ◌≡◌, Bool, ◌||◌, not, str_eq, if◌then◌else◌, Bool-cases, inl, inr}

module _ (upper_trim : String → String) where
  unfoldable pub normalize : String → String
  normalize state = if str_eq (upper_trim state) "" then "UNKNOWN" else upper_trim state

  unfoldable pub is_terminal : String → Bool
  unfolding normalize
  is_terminal state =
      let s = normalize state in
      str_eq s "FINISHED" || (str_eq s "FAILED" || (str_eq s "CANCELED" || str_eq s "CANCELLED"))

  unfoldable pub is_active : String → Bool
  is_active state = not (is_terminal state)

  normalize_idem :
      (state : String)
      → upper_trim (upper_trim state) ≡ upper_trim state
      → upper_trim "UNKNOWN" ≡ "UNKNOWN"
      → normalize (normalize state) ≡ normalize state
  unfolding normalize
  normalize_idem state idem unknown = elim (Bool-cases (str_eq (upper_trim state) "")) [
    | inl e ↦ rw (e, unknown)
    | inr e ↦ rw (e, idem, e)
  ]

  -- A state that is already normalised is left alone, so the test may be made before or after.
  pub is_terminal-normalize :
      (state : String)
      → upper_trim (upper_trim state) ≡ upper_trim state
      → upper_trim "UNKNOWN" ≡ "UNKNOWN"
      → is_terminal (normalize state) ≡ is_terminal state
  unfolding is_terminal
  is_terminal-normalize state idem unknown = rw (normalize_idem state idem unknown)
