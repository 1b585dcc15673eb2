-- ===== src/Client.antt =====
-- browser/parser/html5ever.zig: how the embedder reads what it is passed, through the pointers and
-- lengths and by calls of the attribute iterator.
pub mod Marshal
pub mod Drain
use zenpanda.Prelude.{ℕ, zero, suc, List, [], ◌∷◌, Option, none, some, ◌==◌, if◌then◌else◌}
use zenpanda.Html5ever.{Ptr}
use zenpanda.Memory.{Bytes, read_slice}
use zenpanda.Types.{Ref, CNullable, StringSlice, CQualName, CAttribute, CNodeOrText}
use zenpanda.Machine.{World, Run, pure, ◌>>=◌}
use zenpanda.Iterator.{html5ever_attribute_iterator_next}

-- `Nullable(T).unwrap`
unfoldable pub unwrap : {A : Type 0} → CNullable A → Option A
unwrap n = if n.tag == 0 then none else some n.value

-- `Slice(u8).slice`
unfoldable pub slice : Bytes → StringSlice → List ℕ
slice b s = read_slice b s.ptr s.len

-- What the callbacks read of the `QualName` of an element, and of an attribute, of which the local
-- name is all that is taken for its name.
pub record Name : Type 0 where
  pub ns : List ℕ
  pub local : List ℕ

pub record NamedValue : Type 0 where
  pub name : List ℕ
  pub value : List ℕ

unfoldable pub read_name : Bytes → CQualName → Name
unfolding slice
read_name b q = record { ns = slice b q.ns; local = slice b q.local }

unfoldable pub read_attribute : Bytes → CAttribute → NamedValue
unfolding slice
read_attribute b a = record { name = slice b a.name.local; value = slice b a.value }

-- `NodeOrText.Union`
pub data Union : Type 0 where
  node : Ref → Union
  text : List ℕ → Union

unfoldable pub to_union : Bytes → CNodeOrText → Union
unfolding slice
to_union b n = if n.tag == 0 then node n.node else text (slice b n.text)

module _ {w : World} where
  -- `AttributeIterator.next`
  unfoldable pub iterator_next : Ptr → Run w (Option CAttribute)
  unfolding unwrap html5ever_attribute_iterator_next
  iterator_next iter = do n ← html5ever_attribute_iterator_next iter; pure (unwrap n)

  -- `while (attributes.next()) |attr|`, for at most so many rounds
  unfoldable pub collect : ℕ → Ptr → Run w (List CAttribute)
  collect zero iter = pure []
  collect (suc rounds) iter = do
    o ← iterator_next iter
    elim o [ none ↦ pure [] | some a ↦ do rest ← collect rounds iter; pure (a ∷ rest) ]
