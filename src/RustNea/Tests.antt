-- ===== src/RustNea/Tests.antt =====
-- A request with two headers and a body of two lines.
use nea.Base.{ℕ, ◌≡◌, refl, arith, List, some, [], ◌∷◌, ◌++◌, ok}
use nea.Text.{codes, strip_prefix, split_once, lines, is_whitespace, Header, IsWord, crlf, joined}
use nea.RustNea.{format_response, Request, parse, headers_of}
use nea.RustNea.Paths.{respond, svg, point_line, point_lines, drawn, respond-points}
use nea.RustNea.Messages.{print, IsRequest, parse-print}

abbrev host : Header
host = record { key = codes "Host"; value = codes "localhost:8080" }

abbrev request : Request
request = record {
  body = codes "1, 2" ++ (crlf ++ codes "x: y");
  headers = host ∷ record { key = codes "Accept"; value = [] } ∷ [];
  method = codes "POST";
  path = codes "/svg";
  version = codes "HTTP/1.1";
}

abbrev taken_for_header : Header
taken_for_header = record { key = codes "x"; value = codes "y" }

post_line : IsWord (codes "POST") × IsWord (codes "/svg") × IsWord (codes "HTTP/1.1")
unfolding is_whitespace
post_line = (
  record { no_spaces = refl; some_text = refl },
  record { no_spaces = refl; some_text = refl },
  record { no_spaces = refl; some_text = refl },
)

request-IsRequest : IsRequest request
request-IsRequest = record {
  method_word = post_line.0;
  path_word = post_line.1;
  version_word = post_line.2;
  header_fields = (
    record {
      no_colon = refl;
      key_no_cr = refl;
      key_no_lf = refl;
      value_no_cr = refl;
      value_no_lf = refl;
    },
    (
      record {
        no_colon = refl;
        key_no_cr = refl;
        key_no_lf = refl;
        value_no_cr = refl;
        value_no_lf = refl;
      },
      tt,
    ),
  );
}

parse-print_example :
    parse (print request)
    ≡ ok (some (record request { headers = request.headers ++ headers_of (lines request.body) }))
parse-print_example = parse-print request request-IsRequest

-- A line of the body with the separator is taken for a header.
body_header : headers_of (lines request.body) ≡ taken_for_header ∷ []
unfolding headers_of lines split_once strip_prefix
body_header = refl

abbrev more_points : List (ℕ × ℕ)
more_points = (4, 5) ∷ []

respond-points_example :
    respond (joined (point_line (1, 23)) (point_lines more_points))
    ≡ ok (format_response (svg (codes "M 0 0 L" ++ drawn ((1, 23) ∷ more_points))))
respond-points_example =
    respond-points (1, 23) more_points
      ((omega arith, omega arith), ((omega arith, omega arith), tt))
