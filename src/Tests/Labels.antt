-- ===== src/Tests/Labels.antt =====
-- Display names on concrete inputs.
use wake_sol.Prelude.{◌≡◌, refl, false, [], str_eq, if◌then◌else◌}
use wake_sol.Prelude.Assoc.{by_name}
use wake_sol.Builder.Names.{codes}
use wake_sol.Labels.{Labels, well_known, set_label, shown, truncated, resolve_label}
use wake_sol.Labels.Resolve.{unless_known, resolve_label-set_label}

abbrev empty : Labels
empty = record { labels = []; full_addresses = false }

resolve_label-set_label_example :
    resolve_label "Alice1111111" (set_label "Alice1111111" "alice" empty)
    ≡ unless_known (by_name "Alice1111111" well_known) (
        if str_eq "Alice1111111" "Alice1111111"
        then codes "alice"
        else resolve_label "Alice1111111" empty)
resolve_label-set_label_example =
    resolve_label-set_label empty "Alice1111111" "Alice1111111" "alice"

resolve_label-alice : resolve_label "Alice1111111" empty ≡ codes "Alic…1111"
unfolding resolve_label shown by_name truncated
resolve_label-alice = refl
