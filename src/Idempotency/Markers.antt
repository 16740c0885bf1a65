-- ===== src/Idempotency/Markers.antt =====
-- src/helpers/withIdempotency.ts: the markers under a key, written and read back.

use Prim.Native.String.{◌++◌, count}
use text.Mathlib.TextLemmas.{append_cancel_left, length-append, nil-append, cons-append}
use baileys_api.Prelude.{ℕ, String, ◌≡◌, ◌≢◌, Option, some, eq-false, arith, false, true, ap, ◌∙◌}
use baileys_api.Text.{Lacks, strip_prefix, strip_prefix-append, split_last-append}
use baileys_api.Cluster.Site.{Site}
use baileys_api.Idempotency.{
  processing_value, indeterminate_value, parse_holder, split_holder, is_indeterminate_marker, found,
}

longer : (x : String) → "processing:" ++ x ≢ "processing"
longer x e = omega (arith, length-append "processing:" x, ap (λ (s : String). count s) e)

-- The marker that a process writes while it works names its holder, whatever characters its
-- instance id has (colons and "#" included), if the incarnation id has no "#".
pub parse_holder-processing_value :
    (site : Site)
    → Lacks b'#' site.incarnation_id
    → parse_holder (processing_value site)
      ≡ some (record { instance_id = site.instance_id; incarnation_id = some site.incarnation_id })
unfolding parse_holder processing_value
parse_holder-processing_value site h =
    let rest = site.instance_id ++ ("#" ++ site.incarnation_id) in
    let hash : "#" ++ site.incarnation_id ≡ String.◌∷◌ "#" site.incarnation_id =
      cons-append "#" "" site.incarnation_id
      ∙ ap (String.◌∷◌ "#") (nil-append site.incarnation_id) in
    rw (eq-false (longer rest), strip_prefix-append "processing:" rest, hash)
      (ap
        (λ (o : Option (String × String)).
          some (split_holder (site.instance_id ++ String.◌∷◌ "#" site.incarnation_id) o))
        (split_last-append "#" site.instance_id site.incarnation_id h))

-- Two attempts of one process write different markers, if their numbers are written differently.
pub indeterminate_value_inj :
    (site : Site) (to_base36 : ℕ → String) (m n : ℕ)
    → indeterminate_value site to_base36 m ≡ indeterminate_value site to_base36 n
    → to_base36 m ≡ to_base36 n
unfolding indeterminate_value
indeterminate_value_inj site to_base36 m n e = append_cancel_left "#" _ _ (
    append_cancel_left site.incarnation_id _ _ (
      append_cancel_left "#" _ _
        (append_cancel_left site.instance_id _ _ (append_cancel_left "indeterminate:" _ _ e))))

pub indeterminate_value-marker :
    (site : Site) (to_base36 : ℕ → String) (n : ℕ)
    → is_indeterminate_marker (indeterminate_value site to_base36 n) ≡ true
unfolding is_indeterminate_marker indeterminate_value
indeterminate_value-marker site to_base36 n = rw strip_prefix-append

-- A marker of work in progress is no marker of an unknown outcome.
pub processing_value-marker :
    (site : Site) → is_indeterminate_marker (processing_value site) ≡ false
unfolding is_indeterminate_marker processing_value strip_prefix
processing_value-marker site =
    ap (λ (s : String). found (strip_prefix "indeterminate:" s))
      (cons-append "p" "rocessing:" (site.instance_id ++ ("#" ++ site.incarnation_id)))

-- Processes of different instances never write the same marker, if their incarnation ids have no
-- "#".
pub processing_value_apart :
    (a b : Site)
    → Lacks b'#' a.incarnation_id
    → Lacks b'#' b.incarnation_id
    → a.instance_id ≢ b.instance_id
    → processing_value a ≢ processing_value b
processing_value_apart a b plain_a plain_b apart e = apart (
    ground (
      arith,
      ap parse_holder e,
      parse_holder-processing_value a plain_a,
      parse_holder-processing_value b plain_b,
    ))
