-- ===== src/Iterator.antt =====
-- The attribute iterator of html5ever/lib.rs, and how the embedder reads it
-- (browser/parser/html5ever.zig).
use zenpanda.Prelude.{ℕ, suc, Option, none, some, length, get_elem?, ◌==◌, if◌then◌else◌}
use zenpanda.Html5ever.{Ptr, Attribute}
use zenpanda.Types.{
  CNullable, nullable_none, nullable_some, CAttribute, slice_of, qual_name_create,
  attribute_default,
}
use zenpanda.Machine.{
  World, attribute_iterator, Run, pure, panic, extern_c, ◌>>=◌, ◌>>◌, load_iterator, store_object,
}

unfoldable pub attribute_create : Attribute → CAttribute
attribute_create attr = record { name = qual_name_create attr.name; value = slice_of attr.value }

module _ {w : World} where
  -- `&iter.vec[pos]`, which panics out of bounds
  index : Option Attribute → Run w Attribute
  index none = panic
  index (some attr) = pure attr

  unfoldable pub html5ever_attribute_iterator_next : Ptr → Run w (CNullable CAttribute)
  unfolding index nullable_none nullable_some attribute_create load_iterator store_object
  html5ever_attribute_iterator_next c_iter = extern_c (do
    iter ← load_iterator c_iter
    if iter.pos == length iter.vec then pure nullable_none else do
      attr ← index (get_elem? iter.vec iter.pos)
      store_object c_iter (attribute_iterator (record iter { pos = suc iter.pos }))
      pure (nullable_some (attribute_create attr)))

  unfoldable pub html5ever_attribute_iterator_count : Ptr → Run w ℕ
  unfolding load_iterator
  html5ever_attribute_iterator_count c_iter = do iter ← load_iterator c_iter; pure (length iter.vec)
