-- ===== src/Tests/Reading.antt =====
-- JSON texts.
use dbsc_python.Base.{arith, true, ◌≡◌, refl, none, some, [], ◌∷◌}
use dbsc_python.Base.Int.{pos, negsuc}
use dbsc_python.Base.Text.{codes, text_eq}
use dbsc_python.Json.Dumps.{dumps, decimal}
use dbsc_python.Json.RoundTrip.Plain.{is_plain, nesting}
use dbsc_python.Json.RoundTrip.Values.{loads-dumps}
use dbsc_python.Json.{Json, is_unique, bool, int, float, str, arr, obj, nil, cons, end, field}
use dbsc_python.Json.Scanned.{got, malformed}
use dbsc_python.Json.Reader.{loads, loads_object}

reader_runs :
    (loads_object 2 (codes "{\"a\" : [1,-2.5e3,\"x\\u0041\"] , \"b\":{}}")
      ≡ some (
          field
            (codes "a")
            (arr (cons (int (pos 1)) (cons (float (codes "-2.5e3")) (cons (str (codes "xA")) nil))))
            (field (codes "b") (obj end) end)))
    × (loads_object 1 (codes "{\"a\":[]}") ≡ none)
    × (loads_object 9 (codes "{\"a\":1,\"a\":1}") ≡ none)
    × (loads 9 (codes "\"\\ud83d\\ude00\\ud83d\"") ≡ got (str (0x1f600 ∷ 0xd83d ∷ [])))
    × (loads 9 (codes "01") ≡ malformed)
    × (loads 9 (codes "-7 ") ≡ got (int (negsuc 6)))
    × (loads 9 (codes "[1,]") ≡ malformed)
unfolding loads loads_object codes text_eq
reader_runs = (refl, refl, refl, refl, refl, refl, refl)

-- {"a":[true,-7],"é":{}}
abbrev document : Json
document = obj (
    field (97 ∷ []) (arr (cons (bool true) (cons (int (negsuc 6)) nil)))
      (field (233 ∷ []) (obj end) end))

loads-dumps_example : loads 2 (dumps document) ≡ got document
unfolding is_plain nesting is_unique text_eq decimal
loads-dumps_example = loads-dumps document 2 refl (omega arith)
