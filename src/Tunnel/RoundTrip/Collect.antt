-- ===== src/Tunnel/RoundTrip/Collect.antt =====
-- The loops that fill a map and a struct behind the reads, on keys and names that differ.
use aliyun_odps_go_sdk.Prelude.{ℕ, suc, ◌≡◌, refl, sym, ap, ◌∙◌, true, ◌==◌, arith}
use aliyun_odps_go_sdk.Text.{Text}
use aliyun_odps_go_sdk.Outcome.{ok}
use aliyun_odps_go_sdk.Data.{
  Cell, Items, Entries, Members, nil, cons, no_entries, entry, no_members, member,
}
use aliyun_odps_go_sdk.Tunnel.Writer.{count_items, count_entries}
use aliyun_odps_go_sdk.Tunnel.Reader.Field.{RecordReader, set_entry, set_field, fill_map, pair_up}
use aliyun_odps_go_sdk.Tunnel.RoundTrip.Fits.{snoc_entry, snoc_member, IsNewKey, IsMap, IsNewName}

abbrev pub keys_of : Entries → Items
keys_of no_entries = nil
keys_of (entry k v es) = cons k (keys_of es)

abbrev pub values_of : Entries → Items
values_of no_entries = nil
values_of (entry k v es) = cons v (values_of es)

count_keys_of : (es : Entries) → count_items (keys_of es) ≡ count_entries es
count_keys_of no_entries = refl
count_keys_of (entry k v es) = ap suc (count_keys_of es)

count_values_of : (es : Entries) → count_items (values_of es) ≡ count_entries es
count_values_of no_entries = refl
count_values_of (entry k v es) = ap suc (count_values_of es)

abbrev join_entries : Entries → Entries → Entries
join_entries no_entries es = es
join_entries (entry k v acc) es = entry k v (join_entries acc es)

join_entries-nil : (acc : Entries) → join_entries acc no_entries ≡ acc
join_entries-nil no_entries = refl
join_entries-nil (entry k v acc) = ap (entry k v) (join_entries-nil acc)

join_entries-snoc :
    (acc : Entries) (k v : Cell) (es : Entries)
    → join_entries (snoc_entry acc k v) es ≡ join_entries acc (entry k v es)
join_entries-snoc no_entries k v es = refl
join_entries-snoc (entry k' v' acc) k v es = ap (entry k' v') (join_entries-snoc acc k v es)

set_entry-IsNewKey :
    (k v : Cell) (acc : Entries) → IsNewKey k acc → set_entry k v acc ≡ snoc_entry acc k v
unfolding set_entry
set_entry-IsNewKey k v no_entries h = refl
set_entry-IsNewKey k v (entry k' v' acc) (h, hs) =
    rw h (ap (entry k' v') (set_entry-IsNewKey k v acc hs))

fill_map-IsMap :
    (acc es : Entries) (q : RecordReader)
    → IsMap acc es
    → fill_map (keys_of es) (values_of es) acc q ≡ ok (join_entries acc es) q
unfolding fill_map
fill_map-IsMap acc no_entries q h = rw (join_entries-nil acc)
fill_map-IsMap acc (entry k v es) q (hash, new, rest) = rw (
  hash,
  set_entry-IsNewKey k v acc new,
  fill_map-IsMap (snoc_entry acc k v) es q rest,
  join_entries-snoc acc k v es,
)

equal_counts : (m n : ℕ) → m ≡ n → (m == n) ≡ true
equal_counts m n e = ground arith

pub pair_up-IsMap :
    (es : Entries) (q : RecordReader)
    → IsMap no_entries es
    → pair_up (keys_of es) (values_of es) q ≡ ok es q
unfolding pair_up
pair_up-IsMap es q h =
    rw (equal_counts _ _ (count_keys_of es ∙ sym (count_values_of es)))
      (fill_map-IsMap no_entries es q h)

abbrev pub join_members : Members → Members → Members
join_members no_members ms = ms
join_members (member n c acc) ms = member n c (join_members acc ms)

pub join_members-nil : (acc : Members) → join_members acc no_members ≡ acc
join_members-nil no_members = refl
join_members-nil (member n c acc) = ap (member n c) (join_members-nil acc)

pub join_members-snoc :
    (acc : Members) (n : Text) (c : Cell) (ms : Members)
    → join_members (snoc_member acc n c) ms ≡ join_members acc (member n c ms)
join_members-snoc no_members n c ms = refl
join_members-snoc (member n' c' acc) n c ms = ap (member n' c') (join_members-snoc acc n c ms)

pub set_field-IsNewName :
    (n : Text) (c : Cell) (acc : Members)
    → IsNewName n acc
    → set_field n c acc ≡ snoc_member acc n c
unfolding set_field
set_field-IsNewName n c no_members h = refl
set_field-IsNewName n c (member n' c' acc) (h, hs) =
    rw h (ap (member n' c') (set_field-IsNewName n c acc hs))
