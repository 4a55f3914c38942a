-- ===== src/Http/Tests.antt =====
-- Requests and answers of src/http.rs on a small body.
use den_atlas.Prelude.{
  ℕ, ◌+◌, ◌-◌, ◌^◌, ◌≤◌, ◌<◌, ◌≡◌, ◌↔◌, refl, true, false, Bool, List, [], ◌∷◌, ◌++◌, Option, none,
  some, arith, ◌&&◌, ◌||◌, leb, ltb, length, min, if◌then◌else◌, ◌==◌,
}
use den_atlas.Prelude.Decimal.{decimal, no_space}
use den_atlas.Prelude.Bytes.{Text, codes, parse_unsigned}
use den_atlas.Http.{
  Headers, Servable, Response, head, other, RangeResult, range, unsatisfiable, no_range,
  parse_range, quoted, serve, if_range_matches, is_not_modified,
}
use den_atlas.Http.Range.{Inside, parse_range-Inside}
use den_atlas.Http.RoundTrip.{bytes_header, parse_range-between}
use den_atlas.Http.Validators.{weak, as_weak, if_range_matches-tag, is_not_modified-tag}
use den_atlas.Http.Serving.{Served, serve-Served}
use den_atlas.Http.Transfer.{asks_range, serve-parts}

-- A value without control bytes.
abbrev plain_value : Text → Bool
plain_value [] = true
plain_value (c ∷ s) = leb 32 c && plain_value s

abbrev small_page : Servable
small_page = record {
  etag_base = codes "5f-7";
  content_type = codes "text/plain";
  cache_control = codes "max-age=60";
  last_modified = some (codes "40");
  accept_ranges = true;
  body = codes "den atlas";
}

abbrev no_headers : Headers
no_headers = record {
  range = none;
  if_range = none;
  if_none_match = none;
  if_modified_since = none;
}

abbrev reply : Headers → Text
unfolding serve
reply h = (serve parse_unsigned plain_value other h small_page).body

reply_slice : reply (record no_headers { range = some (codes "bytes=4-20") }) ≡ codes "atlas"
unfolding parse_range reply is_not_modified den_atlas.Http.serve_range if_range_matches
    den_atlas.Prelude.Bytes.strip_prefix den_atlas.Prelude.Bytes.trim den_atlas.Prelude.Bytes.split
    den_atlas.Prelude.Bytes.all_digits parse_unsigned den_atlas.Prelude.Bytes.parse_digits
    den_atlas.Http.partial
reply_slice = refl

reply_two_ranges :
    reply (record no_headers { range = some (codes "bytes=0-1,4-5") }) ≡ codes "den atlas"
unfolding parse_range reply is_not_modified den_atlas.Http.serve_range if_range_matches
    den_atlas.Prelude.Bytes.strip_prefix den_atlas.Prelude.Bytes.trim den_atlas.Prelude.Bytes.split
    den_atlas.Http.whole
reply_two_ranges = refl

parse_range-Inside_example : Inside 4 8 9
unfolding parse_range den_atlas.Prelude.Bytes.strip_prefix den_atlas.Prelude.Bytes.trim
    den_atlas.Prelude.Bytes.split den_atlas.Prelude.Bytes.all_digits parse_unsigned
    den_atlas.Prelude.Bytes.parse_digits
parse_range-Inside_example = parse_range-Inside (codes "bytes=4-20") 9 4 8 refl

parse_range-between_example :
    parse_range (bytes_header (decimal 2 ++ b'-' ∷ decimal 30)) 9 ≡ range 2 8
parse_range-between_example = parse_range-between 2 30 9 (omega arith) (omega arith) (omega arith)

is_not_modified-tag_example :
    (is_not_modified parse_unsigned
        (record no_headers { if_none_match = some (codes "W/\"5f-7\"") })
        (codes "\"5f-7\"")
        none
      ≡ true)
    ↔ (codes "5f-7" ≡ codes "5f-7")
unfolding no_space den_atlas.Http.Validators.no_comma
is_not_modified-tag_example =
    is_not_modified-tag parse_unsigned
      (record no_headers { if_none_match = some (codes "W/\"5f-7\"") })
      (weak (quoted (codes "5f-7"))) (codes "5f-7") (codes "5f-7") none refl refl as_weak refl

serve-Served_example :
    Served small_page (serve parse_unsigned plain_value other (asks_range (codes "-3")) small_page)
serve-Served_example = serve-Served parse_unsigned plain_value (asks_range (codes "-3")) small_page

serve-parts_example :
    reply (asks_range (decimal 0 ++ b'-' ∷ decimal (3 - 1)))
      ++ reply (asks_range (decimal 3 ++ b'-' ∷ []))
    ≡ codes "den atlas"
unfolding reply serve
serve-parts_example =
    serve-parts parse_unsigned plain_value small_page 3 refl (omega arith) (omega arith)
      (omega arith)
