-- ===== src/Tests/Marshalling.antt =====
-- Names, attributes and nodes that go from html5ever/sink.rs to the embedder and back.
use zenpanda.Prelude.{ℕ, suc, List, [], ◌∷◌, map, none, some, ◌≡◌, refl}
use zenpanda.Html5ever.{QualName, Attribute}
use zenpanda.Memory.{read_slice, write_slice}
use zenpanda.Types.{nullable_none, slice_default, qual_name_default, attribute_default}
use zenpanda.Machine.{Machine, attribute_iterator, update, returned}
use zenpanda.Iterator.{
  attribute_create, html5ever_attribute_iterator_count, html5ever_attribute_iterator_next,
}
use zenpanda.Client.{read_attribute, collect}
use zenpanda.Client.Marshal.{attribute_text, HoldsName, read_attributes-create}
use zenpanda.Client.Drain.{at_pos, moved, drain_complete}
use zenpanda.Tests.Page.{Here, html, input, start}

-- a name without a prefix, and one with an empty prefix
abbrev bare : QualName
bare = record {
  prefix = none;
  ns = record { at = html; text = [] };
  local = record { at = html; text = input };
}

abbrev prefixed : QualName
prefixed = record bare { prefix = some (record { at = html; text = [] }) }

abbrev both : List Attribute
both =
    record { name = bare; value = record { at = html; text = input } }
    ∷ record { name = prefixed; value = record { at = html; text = input } }
    ∷ []

bare-HoldsName : HoldsName start.bytes bare
unfolding read_slice write_slice
bare-HoldsName = record { ns = refl; local = refl }

prefixed-HoldsName : HoldsName start.bytes prefixed
unfolding read_slice write_slice
prefixed-HoldsName = record { ns = refl; local = refl }

read_attributes-create_example :
    map (read_attribute start.bytes) (map attribute_create both) ≡ map attribute_text both
read_attributes-create_example = read_attributes-create start.bytes both (
  record { name = bare-HoldsName; value = unfold read_slice write_slice in refl },
  (record { name = prefixed-HoldsName; value = unfold read_slice write_slice in refl }, tt),
)

-- with an iterator at 9
abbrev listing : Machine Here
listing = record start { heap = update start.heap 9 (some (attribute_iterator (at_pos both 0))) }

drain_complete_example :
    (c : ℕ) × (html5ever_attribute_iterator_count 9 listing ≡ returned c listing)
    × (collect (suc c) 9 listing ≡ returned (map attribute_create both) (moved listing 9 both c))
    × (html5ever_attribute_iterator_next 9 (moved listing 9 both c)
        ≡ returned nullable_none (moved listing 9 both c))
    × (html5ever_attribute_iterator_count 9 (moved listing 9 both c)
        ≡ returned c (moved listing 9 both c))
drain_complete_example = drain_complete listing 9 both (unfold update in refl)
