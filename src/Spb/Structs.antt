-- ===== src/Spb/Structs.antt =====
-- Structs and maps as the decoder fills them: the fields that are set and those still blank, and the
-- keys that are in.
use gotools.Common.{ℕ, zero, suc, ◌+◌, ◌≡◌, refl, sym, ap, ◌∙◌, arith, Bool, false, some}
use gotools.Spb.Values.{
  FieldTag, untagged, tagged, unreadable, Value, Entries, Fields, length_fields,
}
use gotools.Spb.Unpack.{
  Runtime, tagged_field, plain_field, field_index, get_field, set_field, set_map_index, make_map,
  Target, value_at, put_at, modify_at,
}
use gotools.Spb.Wire.{blank, blank_fields, Apart, KeysApart}

abbrev pub join : Fields → Fields → Fields
join Fields.no_field fs = fs
join (Fields.field g r v pre) fs = Fields.field g r v (join pre fs)

abbrev pub one : FieldTag → Bool → Value → Fields
one g r v = Fields.field g r v Fields.no_field

pub join_assoc : (a b c : Fields) → join (join a b) c ≡ join a (join b c)
join_assoc Fields.no_field b c = refl
join_assoc (Fields.field g r v a) b c = ap (Fields.field g r v) (join_assoc a b c)

pub length-join : (a b : Fields) → length_fields (join a b) ≡ length_fields a + length_fields b
length-join Fields.no_field b = omega arith
length-join (Fields.field g r v a) b = omega (arith, length-join a b)

-- The numbers of the fields do not depend on the values.
tagged_field-blank :
    (tag i : ℕ) (pre fs : Fields)
    → tagged_field tag i (join pre (blank_fields fs)) ≡ tagged_field tag i (join pre fs)
unfolding tagged_field blank
tagged_field-blank tag i Fields.no_field Fields.no_field = refl
tagged_field-blank tag i Fields.no_field (Fields.field untagged r v fs) =
    tagged_field-blank tag (i + 1) Fields.no_field fs
tagged_field-blank tag i Fields.no_field (Fields.field (tagged n) r v fs) =
    rw (tagged_field-blank tag (i + 1) Fields.no_field fs)
tagged_field-blank tag i Fields.no_field (Fields.field unreadable r v fs) =
    tagged_field-blank tag (i + 1) Fields.no_field fs
tagged_field-blank tag i (Fields.field untagged r v pre) fs = tagged_field-blank tag (i + 1) pre fs
tagged_field-blank tag i (Fields.field (tagged n) r v pre) fs =
    rw (tagged_field-blank tag (i + 1) pre fs)
tagged_field-blank tag i (Fields.field unreadable r v pre) fs =
    tagged_field-blank tag (i + 1) pre fs

plain_field-blank :
    (tag : ℕ) (pre fs : Fields)
    → plain_field tag (join pre (blank_fields fs)) ≡ plain_field tag (join pre fs)
unfolding plain_field blank
plain_field-blank tag Fields.no_field Fields.no_field = refl
plain_field-blank zero Fields.no_field (Fields.field untagged r v fs) = refl
plain_field-blank zero Fields.no_field (Fields.field (tagged n) r v fs) = refl
plain_field-blank zero Fields.no_field (Fields.field unreadable r v fs) = refl
plain_field-blank (suc tag) Fields.no_field (Fields.field g r v fs) =
    plain_field-blank tag Fields.no_field fs
plain_field-blank zero (Fields.field untagged r v pre) fs = refl
plain_field-blank zero (Fields.field (tagged n) r v pre) fs = refl
plain_field-blank zero (Fields.field unreadable r v pre) fs = refl
plain_field-blank (suc tag) (Fields.field g r v pre) fs = plain_field-blank tag pre fs

pub field_index-blank :
    (tag : ℕ) (pre fs : Fields)
    → field_index tag (join pre (blank_fields fs)) ≡ field_index tag (join pre fs)
unfolding field_index
field_index-blank tag pre fs =
    ground (arith, tagged_field-blank tag 0 pre fs, plain_field-blank tag pre fs)

pub get_field-join :
    (pre fs : Fields) (g : FieldTag) (r : Bool) (v : Value)
    → get_field (length_fields pre) (join pre (Fields.field g r v fs)) ≡ some v
unfolding get_field
get_field-join Fields.no_field fs g r v = refl
get_field-join (Fields.field h q w pre) fs g r v = get_field-join pre fs g r v

pub set_field-join :
    (pre fs : Fields) (g : FieldTag) (r : Bool) (v w : Value)
    → set_field (length_fields pre) v (join pre (Fields.field g r w fs))
      ≡ join pre (Fields.field g r v fs)
unfolding set_field
set_field-join Fields.no_field fs g r v w = refl
set_field-join (Fields.field h q u pre) fs g r v w =
    ap (Fields.field h q u) (set_field-join pre fs g r v w)

-- A setter at a target that holds a value.
pub modify_at-put_at :
    (t : Target) (f : Value → Value) (x u v : Value)
    → value_at t x ≡ some u
    → f u ≡ v
    → modify_at t f x ≡ put_at t v x
unfolding modify_at
modify_at-put_at t f x u v h e = ground arith

abbrev pub join_entries : Entries → Entries → Entries
join_entries Entries.empty es = es
join_entries (Entries.entry k v acc) es = Entries.entry k v (join_entries acc es)

join_entries_assoc :
    (a b c : Entries) → join_entries (join_entries a b) c ≡ join_entries a (join_entries b c)
join_entries_assoc Entries.empty b c = refl
join_entries_assoc (Entries.entry k v a) b c = ap (Entries.entry k v) (join_entries_assoc a b c)

join_entries-empty : (a : Entries) → join_entries a Entries.empty ≡ a
join_entries-empty Entries.empty = refl
join_entries-empty (Entries.entry k v a) = ap (Entries.entry k v) (join_entries-empty a)

module _ (rt : Runtime) where
  Apart-join :
      (j k : Value) (v : Value) (acc es : Entries)
      → Apart rt j (join_entries acc (Entries.entry k v es))
      → rt.same_key j k ≡ false
  Apart-join j k v Entries.empty es h = h.0
  Apart-join j k v (Entries.entry i w acc) es h = Apart-join j k v acc es h.1

  set_map_index-apart :
      (k v : Value) (acc es : Entries)
      → KeysApart rt (join_entries acc (Entries.entry k v es))
      → set_map_index rt k v acc ≡ join_entries acc (Entries.entry k v Entries.empty)
  unfolding set_map_index
  set_map_index-apart k v Entries.empty es h = refl
  set_map_index-apart k v (Entries.entry j w acc) es h =
      rw (Apart-join j k v acc es h.0, set_map_index-apart k v acc es h.1)

  make_map-join :
      (es acc : Entries)
      → KeysApart rt (join_entries acc es)
      → make_map rt es acc ≡ join_entries acc es
  unfolding make_map
  make_map-join Entries.empty acc h = sym (join_entries-empty acc)
  make_map-join (Entries.entry k v es) acc h =
      let added = join_entries_assoc acc (Entries.entry k v Entries.empty) es in
      rw (set_map_index-apart k v acc es h)
        (make_map-join es (join_entries acc (Entries.entry k v Entries.empty)) (rw added h) ∙ added)

  -- Entries whose keys are apart make the map that lists them.
  pub make_map-KeysApart : (es : Entries) → KeysApart rt es → make_map rt es Entries.empty ≡ es
  make_map-KeysApart es h = make_map-join es Entries.empty h
