-- ===== src/GraphId/Packing.antt =====
-- Packing a label's id and an entry's number into a graphid, and reading them back.
use post_graph.Prelude.{ℕ, ◌+◌, ◌*◌, ◌%◌, ◌^◌, ◌<◌, ◌≤◌, ◌≡◌, ◌⊎◌, arith, Report, ok, error}
use post_graph.Prelude.Bits.{or_beside, and_mask}
use post_graph.Prelude.Int.{ℤ, pos, negsuc, ◌≤ℤ◌}
use post_graph.GraphId.{
  Graphid, label_id_min, label_id_max, entry_id_min, entry_id_max, make_graphid,
  get_graphid_label_id, get_graphid_entry_id,
}

-- Within the bounds the bits of a graphid are a sum.
make_graphid-sum :
    (l e : ℕ)
    → 1 ≤ l
    → l ≤ 65535
    → 1 ≤ e
    → e ≤ 281474976710655
    → make_graphid (pos l) (pos e) ≡ ok (l * 2 ^ 48 + e)
unfolding make_graphid
make_graphid-sum l e l1 l2 e1 e2 = ground (arith, and_mask 48 (e % 2 ^ 64), or_beside 48 l e)

label_of_sum : (l e : ℕ) → e < 2 ^ 48 → get_graphid_label_id (l * 2 ^ 48 + e) ≡ pos l
unfolding get_graphid_label_id
label_of_sum l e h = ground arith

entry_of_sum : (l e : ℕ) → e < 2 ^ 48 → get_graphid_entry_id (l * 2 ^ 48 + e) ≡ pos e
unfolding get_graphid_entry_id
entry_of_sum l e h = ground (arith, and_mask 48 (l * 2 ^ 48 + e))

-- Is it an id that `make_graphid` accepts?
abbrev pub IsLabelId : ℤ → Type 0
IsLabelId id = (label_id_min ≤ℤ id) × (id ≤ℤ label_id_max)

abbrev pub IsEntryId : ℤ → Type 0
IsEntryId id = (entry_id_min ≤ℤ id) × (id ≤ℤ entry_id_max)

-- A label's id from 1 to 65535 and an entry's number from 1 to 2^48 - 1 make a graphid of 64 bits,
-- and the label's id and the entry's number are read back from it.
pub make_graphid_roundtrip :
    (label_id entry_id : ℤ)
    → IsLabelId label_id
    → IsEntryId entry_id
    → (gid : Graphid) × (make_graphid label_id entry_id ≡ ok gid)
      × (gid < 2 ^ 64)
      × (get_graphid_label_id gid ≡ label_id)
      × (get_graphid_entry_id gid ≡ entry_id)
make_graphid_roundtrip (pos l) (pos e) (l1, l2) (e1, e2) = (
  l * 2 ^ 48 + e,
  make_graphid-sum l e (omega arith) (omega arith) (omega arith) (omega arith),
  omega arith,
  label_of_sum l e (omega arith),
  entry_of_sum l e (omega arith),
)
make_graphid_roundtrip (pos l) (negsuc e) (l1, l2) (e1, e2) = absurd (omega arith)
make_graphid_roundtrip (negsuc l) e (l1, l2) h = absurd (omega arith)

-- `make_graphid` succeeds only within the bounds.
pub make_graphid-ok :
    (l e : ℤ) {gid : Graphid} → make_graphid l e ≡ ok gid → IsLabelId l × IsEntryId e
unfolding make_graphid
make_graphid-ok l e h = ground arith

-- Outside the bounds `make_graphid` reports an error, of the label's id first.
pub make_graphid-error :
    (l e : ℤ)
    → ¬ (IsLabelId l × IsEntryId e)
    → (make_graphid l e ≡ error Report.label_id_range) × (¬ IsLabelId l)
      ⊎ (make_graphid l e ≡ error Report.entry_id_range) × IsLabelId l
unfolding make_graphid
make_graphid-error l e h = ground arith

-- Two calls of `make_graphid` that succeed with one graphid had the same arguments.
pub make_graphid_injective :
    (l l' e e' : ℤ) {gid : Graphid}
    → make_graphid l e ≡ ok gid
    → make_graphid l' e' ≡ ok gid
    → (l ≡ l') × (e ≡ e')
make_graphid_injective l l' e e' {gid} h h' =
    let (il, ie) = make_graphid-ok l e h in
    let (il', ie') = make_graphid-ok l' e' h' in
    let (g, made, _, label, entry) = make_graphid_roundtrip l e il ie in
    let (g', made', _, label', entry') = make_graphid_roundtrip l' e' il' ie' in
    let same : g ≡ gid = cc in let same' : g' ≡ gid = cc in (cc, cc)
