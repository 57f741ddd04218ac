-- ===== src/Shared/Prefix.antt =====
-- Keys that are a fixed prefix and a text: they differ as the texts do, or as the prefixes do.
use Prim.Native.Char.{Char, code}
use Prim.Native.String.{String, ◌∷◌, ◌++◌}
use text.Mathlib.TextEquality.{eq_iff}
use text.Mathlib.TextLemmas.{
  append_cancel_left, cons-append, head-eq_of_cons-eq, tail-eq_of_cons-eq,
}
use mathlib.Core.Path.{◌≡◌, ap, sym, ◌∙◌}
use mathlib.Core.Logic.{◌≢◌}
use mathlib.Core.Bool.{false}
use native.Mathlib.Omega.{arith}
use xtrinode.Shared.Tests.{str_eq}

abbrev pub prefixed : String → String → String
prefixed p s = p ++ s

pub str_eq-prefixed : (p s t : String) → str_eq (prefixed p s) (prefixed p t) ≡ str_eq s t
str_eq-prefixed p s t = ground (
  arith,
  eq_iff s t,
  eq_iff (p ++ s) (p ++ t),
  append_cancel_left p s t,
  ap {A = String} (λ u. p ++ u) {x = s} {y = t},
)

-- Prefixes whose first characters differ.
pub prefixed-apart_first :
    (c d : Char) (p q s t : String)
    → code c ≢ code d
    → str_eq (prefixed (c ∷ p) s) (prefixed (d ∷ q) t) ≡ false
prefixed-apart_first c d p q s t ne = ground (arith, eq_iff ((c ∷ p) ++ s) ((d ∷ q) ++ t), apart)
  where
    apart : (c ∷ p) ++ s ≢ (d ∷ q) ++ t
    apart e = ne (ap code (head-eq_of_cons-eq (sym (cons-append c p s) ∙ e ∙ cons-append d q t)))

pub rg_host : (s t : String) → str_eq (prefixed "rg:" s) (prefixed "host:" t) ≡ false
rg_host s t = prefixed-apart_first "r" "h" "g:" "ost:" s t (omega arith)

pub rg_hdr : (s t : String) → str_eq (prefixed "rg:" s) (prefixed "hdr:" t) ≡ false
rg_hdr s t = prefixed-apart_first "r" "h" "g:" "dr:" s t (omega arith)

pub hdr_host : (s t : String) → str_eq (prefixed "hdr:" s) (prefixed "host:" t) ≡ false
hdr_host s t = ground (arith, eq_iff ("hdr:" ++ s) ("host:" ++ t), apart)
  where
    without_h : "hdr:" ++ s ≡ "host:" ++ t → "dr:" ++ s ≡ "ost:" ++ t
    without_h e = tail-eq_of_cons-eq (sym (cons-append "h" "dr:" s) ∙ e ∙ cons-append "h" "ost:" t)

    apart : "hdr:" ++ s ≢ "host:" ++ t
    apart e = ground (
      arith,
      eq_iff ("dr:" ++ s) ("ost:" ++ t),
      prefixed-apart_first "d" "o" "r:" "st:" s t (omega arith),
      without_h e,
    )
