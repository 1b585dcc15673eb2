-- ===== src/PendingText/Callbacks/Ideal.antt =====
-- What the callbacks of browser/parser/Parser.zig mean on a page that has no pending text.
use zenpanda.Prelude.{ℕ, suc, List, [], ◌∷◌, Option, none, some}
use zenpanda.PendingText.{Kid, text_kid, set}
use zenpanda.PendingText.Shown.{Page, insert_text}
use zenpanda.PendingText.Callbacks.{
  Item, node_item, text_item, Source, append_before_sibling, append_based_on_parent_node, Callback,
  create_node, append, remove_from_parent, reparent_children, insert, insert_or_append, pop,
  parent_node, remove_node, append_new, insert_before, append_all_children,
}

pub record View : Type 0 where
  pub page : Page
  pub err : Option Source

abbrev put_before : Page → ℕ → Kid → Item → Page
put_before g p sibling (node_item k) = record g {
  children = insert_before (remove_node g.children (parent_node g.next g.children k) k) p sibling k;
}
put_before g p sibling (text_item txt) = record g {
  text = set g.text g.next txt;
  children = insert_before g.children p sibling (text_kid g.next);
  next = suc g.next;
}

abbrev pub put_at : Page → Option Source → Source → Kid → Item → Option ℕ → View
put_at g err source sibling item none = record { page = g; err = some source }
put_at g err source sibling item (some p) = record { page = put_before g p sibling item; err = err }

abbrev pub put : Page → Option Source → Source → Kid → Item → View
put g err source sibling item =
    put_at g err source sibling item (parent_node g.next g.children sibling)

abbrev pub put_last : Page → ℕ → Item → Page
put_last g p (node_item k) = record g {
  children = append_new (remove_node g.children (parent_node g.next g.children k) k) p k;
}
put_last g p (text_item txt) = insert_text g p txt

abbrev pub put_by : View → Kid → ℕ → Item → Option ℕ → View
put_by v element prev item (some p) = put v.page v.err append_based_on_parent_node element item
put_by v element prev item none = record v { page = put_last v.page prev item }

unfoldable pub change : Callback → View → View
change create_node v = record v { page = record v.page { next = suc v.page.next } }
change (append p item) v = record v { page = put_last v.page p item }
change (remove_from_parent k) v = record v {
  page = record v.page {
    children = remove_node v.page.children (parent_node v.page.next v.page.children k) k;
  };
}
change (reparent_children p target) v = record v {
  page = record v.page { children = append_all_children v.page.children p target };
}
change (insert sibling item) v = put v.page v.err append_before_sibling sibling item
change (insert_or_append element prev item) v =
    put_by v element prev item (parent_node v.page.next v.page.children element)
change pop v = v

unfoldable pub changes : List Callback → View → View
changes [] v = v
changes (c ∷ cs) v = changes cs (change c v)
