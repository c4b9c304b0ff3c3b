-- ===== src/Lru/Recent.antt =====
-- The cache as its user sees it: a list of items, most recently used first, within a budget of
-- bytes. No pointers, no counters, no loop.
use swim.Prelude.{
  ◌-◌, Option, none, some, List, [], ◌∷◌, Text, text_eq, ◌==◌, Result, ok, err, if◌then◌else◌,
}
use swim.Prelude.Int.{exceeds, ℤ, pos_part}
use swim.Lru.{Item, item, exceeds}
use swim.Lru.Room.{fitting}
use swim.Lru.Open.{BaseFile, File, cached, Loaded, directory, file, load, reopen}

unfoldable pub find : Text → List Item → Option Item
find n [] = none
find n (i ∷ is) = if i.name == n then some i else find n is

unfoldable pub remove : Text → List Item → List Item
remove n [] = []
remove n (i ∷ is) = if i.name == n then is else i ∷ remove n is

-- A new item in front, and behind it the most recent ones that still fit.
unfoldable pub add : ℤ → Item → List Item → List Item
add max i is = i ∷ fitting (pos_part max - i.size) is

module _ {E : Type 0} (base_open : Text → Result E (BaseFile E)) where
  unfoldable pub recent_keep :
      ℤ → List Item → Text → Result E Loaded → List Item × Result E (File E)
  recent_keep max is name (err x) = (is, err x)
  recent_keep max is name (ok directory) = (is, reopen base_open name)
  recent_keep max is name (ok (file e)) =
      (if exceeds e.size max then is else add max (item e) is, ok (cached (item e)))

  abbrev pub recent_at : ℤ → List Item → Text → Option Item → List Item × Result E (File E)
  recent_at max is name (some i) = (i ∷ remove name is, ok (cached i))
  recent_at max is name none = recent_keep max is name (load base_open name)

  unfoldable pub recent_open : ℤ → List Item → Text → List Item × Result E (File E)
  unfolding recent_keep
  recent_open max is name = recent_at max is name (find name is)
