-- ===== src/Labels/Resolve.antt =====
-- Which of its names an address is shown under (python/wake_sol/_labels.py).
use wake_sol.Prelude.{
  ℕ, ◌-◌, ◌<◌, ◌≤◌, ◌≡◌, refl, String, Bool, true, false, Option, none, some, List, ◌∷◌,
  if◌then◌else◌, arith, length, take, drop, leb, length-append, length-drop, length-take, str_eq,
}
use wake_sol.Prelude.Assoc.{by_name, by_name-insert}
use wake_sol.Builder.Names.{codes}
use wake_sol.Labels.{Labels, well_known, set_label, get_label, truncated, shown, resolve_label}

-- The name that `known` has, if any, and else `other`.
abbrev pub unless_known : Option String → List ℕ → List ℕ
unless_known (some known) other = codes known
unless_known none other = other

shown-cond :
    (known label other : Option String) (full : Bool) (hit : Bool) (s : List ℕ) (name : String)
    → shown known (if hit then some name else label) full s
      ≡ unless_known known (if hit then codes name else shown known label full s)
unfolding shown
shown-cond (some k) label other full hit s name = refl
shown-cond none label other full true s name = refl
shown-cond none label other full false s name = refl

-- A label shows its address from then on, unless the address is well known, which goes first; it
-- changes nothing for another address.
pub resolve_label-set_label :
    (s : Labels) (key other name : String)
    → resolve_label other (set_label key name s)
      ≡ unless_known
          (by_name other well_known)
          (if str_eq key other then codes name else resolve_label other s)
unfolding resolve_label set_label
resolve_label-set_label s key other name = rw (by_name-insert key other name s.labels) (
    shown-cond (by_name other well_known) (by_name other s.labels) none s.full_addresses
      (str_eq key other) (codes other) name)

length-truncated : (s : List ℕ) → 9 < length s → length (truncated s) ≡ 9
unfolding truncated
length-truncated s long = omega (
  arith,
  length-append (take 4 s) (0x2026 ∷ drop (length s - 4) s),
  length-drop (length s - 4) s,
  length-take 4 s,
)

at_most_nine : (s : List ℕ) → length (if leb (length s) 9 then s else truncated s) ≤ 9
at_most_nine s = ground (arith, length-truncated s)

-- An address without a name is shown in full if that is asked for, and else in at most nine
-- characters.
pub resolve_label-unnamed :
    (s : Labels) (key : String)
    → by_name key well_known ≡ none
    → get_label key s ≡ none
    → (s.full_addresses ≡ true → resolve_label key s ≡ codes key)
      × (s.full_addresses ≡ false → length (resolve_label key s) ≤ 9)
unfolding resolve_label shown get_label
resolve_label-unnamed s key a b =
    (λ full. rw (a, b, full), λ short. rw (a, b, short) (at_most_nine (codes key)))
