-- ===== src/Noun/Lists.antt =====
-- Null-terminated lists, as the builders write them and `list_elements` reads them.
use nns.Base.{List, [], refl, ◌∷◌, ◌≡◌}
use nns.Base.Result.{ok}
use nns.Noun.{Noun, atom, list_elements, ◌⸬◌}

-- `for x in xs.iter().rev() { list = T(&[x, list]) }` from `D(0)`
abbrev pub noun_list : List Noun → Noun
noun_list [] = atom 0
noun_list (x ∷ xs) = x ⸬ noun_list xs

pub list_elements-noun_list : (xs : List Noun) → list_elements (noun_list xs) ≡ ok xs
unfolding list_elements
list_elements-noun_list [] = refl
list_elements-noun_list (x ∷ xs) = rw (list_elements-noun_list xs)
