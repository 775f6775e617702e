-- ===== src/Tests/Serde.antt =====
-- The parameters of the outputs at concrete values: trees for serde_json, and writers that list
-- their events.
use evtx.Prelude.{
  ◌==◌, if◌then◌else◌, length, Text, codes, text_eq, refl, Option, none, some, List, [], ◌∷◌,
}
use evtx.SerdeJson.{SerdeJson, IsLawful}
use evtx.Xml.{Event, QuickXml}
use evtx.Display.{Display, nat_to_string}
use evtx.Tests.World.{world}
use evtx.Tests.Trees.{
  Tree, Members, none_left, view_tree, to_tree, lookup, erase, count, assign, view_tree-to_tree,
  lookup-erase, lookup-assign, count-erase,
}
use evtx.Prelude.Int.{ℤ}

abbrev pub display : Display world
display = record {
  guid_to_string = λ g. codes "guid";
  sid_to_string = λ s. codes "sid";
  format_date_time = nat_to_string;
  date_time_to_string = nat_to_string;
  f32_to_string = nat_to_string;
  f64_to_string = nat_to_string;
}

abbrev pub serde : SerdeJson world
serde = record {
  Value = Tree;
  Map = Members;
  Number = ℤ;
  view = view_tree;
  value = to_tree;
  of_integer = λ n. n;
  of_f32 = λ n. Tree.number (ℤ.pos n);
  of_f64 = λ n. Tree.number (ℤ.pos n);
  of_date_time = λ t. Tree.number (ℤ.pos t);
  new = none_left;
  get = lookup;
  insert = assign;
  remove = erase;
  len = count;
  is_empty = λ m. count m == 0;
  to_string = λ v. some (codes "json");
  to_string_pretty = λ v. some (codes "pretty json");
}

pub serde-IsLawful : IsLawful serde
serde-IsLawful = record {
  view-value = view_tree-to_tree;
  f32_no_string = λ n s h. absurd cc;
  f64_no_string = λ n s h. absurd cc;
  get-new = λ k. refl;
  get-insert = lookup-assign;
  get-remove = lookup-erase;
  len-new = refl;
  len-remove = count-erase;
  is_empty_law = λ m. refl;
}

-- A writer is the list of its events, the last first.
abbrev pub event_list : QuickXml
event_list = record {
  Writer = List Event;
  new = [];
  new_with_indent = λ c n. [];
  write_event = λ e w. some (e ∷ w);
  into_inner = λ w. length w ∷ [];
}

-- The one entity that is known.
abbrev pub unescape : Text → Option Text
unescape t = if text_eq t (codes "&lt;") then some (codes "<") else none
