-- ===== src/Follower/Previews.antt =====
-- The previews of byte strings in the follower's logs.
use nns.Base.{List, [], if◌then◌else◌, length, ltb, map, min, take, ℕ, ◌++◌, ◌-◌, ◌∷◌}
use nns.Base.Display.{to_string}
use nns.Base.Text.{Bytes, Str, codes}
use nns.Hex.{hex_encode}

unfoldable pub atom_hex_preview : Bytes → ℕ → Str
unfolding hex_encode to_string
atom_hex_preview bytes prefix_len =
    let n = min prefix_len (length bytes) in
    let size = codes "(" ++ to_string (length bytes) ++ codes "B)" in
    if ltb n (length bytes)
    then hex_encode (take n bytes) ++ codes "…" ++ size
    else hex_encode (take n bytes) ++ size

-- `join(", ")`
unfoldable pub join_commas : List Str → Str
join_commas [] = []
join_commas (s ∷ []) = s
join_commas (s ∷ t ∷ ss) = s ++ codes ", " ++ join_commas (t ∷ ss)

unfoldable pub format_tx_id_previews : List Bytes → ℕ → Str
unfolding atom_hex_preview join_commas to_string
format_tx_id_previews ids max_count =
    codes "["
    ++ join_commas (map (λ id. atom_hex_preview id 8) (take max_count ids))
    ++ codes "]"
    ++ (if ltb max_count (length ids)
        then codes " …(+" ++ to_string (length ids - max_count) ++ codes " more)"
        else [])
