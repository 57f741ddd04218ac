-- ===== src/Shared/Runes.antt =====
-- The code points of a text, which Go's `range` goes through.
use Prim.Native.Char.{code}
use Prim.Native.Nat.{ℕ}
use Prim.Native.String.{String, [] as empty_text, ◌∷◌ as cons_text}
use text.Mathlib.TextLemmas.{nil-append, cons-append}
use mathlib.Core.Path.{◌≡◌, ap, ◌∙◌}
use mathlib.Core.List.{List, [], ◌∷◌, ◌++◌}
use xtrinode.Shared.Prefix.{prefixed}

unfoldable pub runes : String → List ℕ
runes empty_text = []
runes (cons_text c s) = code c ∷ runes s

pub runes-prefixed : (s t : String) → runes (prefixed s t) ≡ (runes s ++ runes t)
unfolding runes
runes-prefixed empty_text t = ap runes (nil-append t)
runes-prefixed (cons_text c s) t =
    ap runes (cons-append c s t) ∙ ap (λ r. code c ∷ r) (runes-prefixed s t)
