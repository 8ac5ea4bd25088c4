-- ===== src/Common/Ranges.antt =====
-- Facts about all numbers up to a bound, by evaluation.
use Prim.Native.Nat.{ℕ, zero, suc, ◌<◌}
use mathlib.Core.Path.{◌≡◌, sym, ap, ◌∙◌}
use mathlib.Core.Logic.{inl, inr}
use mathlib.Core.Bool.{Bool, true, not, ◌&&◌}
use native.Mathlib.Omega.{arith}
use jia_tuan_server.Common.Tests.{◌==◌, ==_iff, if◌then◌else◌, Bool-cases}

-- Two classes of numbers agree on those up to `last`.
unfoldable pub agree_to : (first second : ℕ → Bool) (last : ℕ) → Bool
agree_to first second zero = if first 0 then second 0 else not (second 0)
agree_to first second (suc last) =
    let before = agree_to first second last in
    before && (if first (suc last) then second (suc last) else not (second (suc last)))

pub agree_to_lem :
    (first second : ℕ → Bool) (last c : ℕ)
    → agree_to first second last ≡ true
    → c < suc last
    → first c ≡ second c
unfolding agree_to
agree_to_lem first second zero c h small =
    let low : c ≡ 0 = omega arith in ap first low ∙ ground arith ∙ sym (ap second low)
agree_to_lem first second (suc last) c h small = elim (Bool-cases (c == suc last)) [
  | inl e ↦ let top = (==_iff c (suc last)).0 e in ap first top ∙ ground arith ∙ sym (ap second top)
  | inr e ↦ agree_to_lem first second last c (ground arith) (ground (arith, ==_iff c (suc last)))
]

-- A test that holds up to `last`.
unfoldable pub holds_to : (test : ℕ → Bool) (last : ℕ) → Bool
unfolding agree_to
holds_to test last = agree_to test (λ n. true) last

pub holds_to_lem :
    (test : ℕ → Bool) (last n : ℕ) → holds_to test last ≡ true → n < suc last → test n ≡ true
unfolding holds_to
holds_to_lem test last n h small = agree_to_lem test (λ m. true) last n h small
