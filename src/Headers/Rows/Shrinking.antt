-- ===== src/Headers/Rows/Shrinking.antt =====
-- The readers of the header types make the stream no longer, and so neither does a header line.
use rust_http.Base.{
  inl, inr, ℕ, zero, suc, ◌≤◌, Bool, true, false, ◌&&◌, ◌||◌, Option, none, some, List, [], ◌∷◌,
  ◌++◌, ◌==◌, length, Text, codes, equal, to_ascii_lower, Run, returns, fails, runs_out,
  if◌then◌else◌,
}
use rust_http.Rfc2616.{double_quote}
use rust_http.Method as Method
use rust_http.Headers.Value.{HeaderValueByteIterator, pending}
use rust_http.Headers.Value.Shrinking.{
  IsWithin, IsShrinking, bind-IsShrinking, pure-IsShrinking, if-IsShrinking, Option-IsShrinking,
  after_next-IsShrinking,
}
use rust_http.Headers.Readers.{
  Reading, ◌>>=◌, pure, is_next, read_token, read_parameters, read_quoted_string, collect_to_str,
  consume_comma_lws, ConsumeCommaLwsResult, comma_consumed, end_of_value, err_comma_not_found,
}
use rust_http.Headers.Readers.Shrinking.{
  read_token-IsShrinking, read_parameters-IsShrinking, read_quoted_string-IsShrinking,
  collect_to_str-IsShrinking, some_if_consumed-IsShrinking, consume_comma_lws-IsShrinking,
}
use rust_http.Headers.Serialization.{normalise_header_name}
use rust_http.Headers.Convertible.{
  HeaderConvertible, call, list_comma, list_item, list_loop, list_convertible, string_convertible,
  method_from, method_from_stream, method_convertible,
}
use rust_http.Headers.Etag as Etag
use rust_http.Headers.Etag.{after_slash, read_weak_in, read_weak, read_tag}
use rust_http.Headers.Connection as Connection
use rust_http.Headers.Connection.{connection_of, connection_from}
use rust_http.Headers.Media.{
  with_parameters, with_subtype, with_type, media_from_stream, transfer_of, transfer_from_stream,
  ranges_loop, ranges_from_stream, host_from_stream, host_of, RangeUnit, bytes, other_range_unit,
  range_units, no_acceptable_ranges, none_yet, chunked, transfer_extension,
}
use rust_http.Headers.Types.{TextFormats, parsed_from_stream, parse_tm, transfer_convertible}
use rust_http.Headers.Table.{
  Row, OneOf, extension_header, known_from_stream, or_extension, value_from_stream,
}
use rust_http.Headers.Rows.{
  request_rows, response_rows, text_row, connection_row, tm_row, transfer_row, host_row, uint_row,
  url_row, methods_row, media_row, ranges_row, etag_row,
}

call-IsShrinking : {A : Type 0} (r : Run A) → IsShrinking (call r)
call-IsShrinking (returns a) = record { within = λ n it h. h }
call-IsShrinking fails = record { within = λ n it h. tt }
call-IsShrinking runs_out = record { within = λ n it h. tt }

module _ {T : Type 0} (item : HeaderConvertible T)
    (h : (fuel : ℕ) → IsShrinking (item.from_stream fuel)) where
  list_comma-IsShrinking :
      (go_on : List T → Reading (Option (List T))) (result : List T) (t : T)
      (c : ConsumeCommaLwsResult)
      → ((l : List T) → IsShrinking (go_on l))
      → IsShrinking (list_comma item go_on result t c)
  unfolding list_comma
  list_comma-IsShrinking go_on result t comma_consumed k = k (result ++ t ∷ [])
  list_comma-IsShrinking go_on result t end_of_value k = pure-IsShrinking _
  list_comma-IsShrinking go_on result t err_comma_not_found k = pure-IsShrinking _

  list_item-IsShrinking :
      (fuel : ℕ) (go_on : List T → Reading (Option (List T))) (result : List T) (o : Option T)
      → ((l : List T) → IsShrinking (go_on l))
      → IsShrinking (list_item item fuel go_on result o)
  unfolding list_item
  list_item-IsShrinking fuel go_on result none k = pure-IsShrinking none
  list_item-IsShrinking fuel go_on result (some t) k =
      bind-IsShrinking (consume_comma_lws fuel) _ (consume_comma_lws-IsShrinking fuel)
        (λ c. list_comma-IsShrinking go_on result t c k)

  list_loop_within :
      (fuel rounds : ℕ) (result : List T) (n : ℕ) (it : HeaderValueByteIterator)
      → length (pending it) ≤ n
      → IsWithin n (list_loop item fuel rounds result it)
  unfolding list_loop
  list_loop_within fuel zero result n it k = tt
  list_loop_within fuel (suc rounds) result n it k =
      (bind-IsShrinking (item.from_stream fuel) _ (h fuel) (λ o.
          list_item-IsShrinking fuel (list_loop item fuel rounds) result o
            (λ l. record { within = list_loop_within fuel rounds l }))).within
        n it k

  list-IsShrinking : (fuel : ℕ) → IsShrinking ((list_convertible item).from_stream fuel)
  list-IsShrinking fuel = record { within = list_loop_within fuel fuel [] }

module _ (fuel : ℕ) where
  string-IsShrinking : IsShrinking (string_convertible.from_stream fuel)
  string-IsShrinking =
      bind-IsShrinking (collect_to_str fuel) _ (collect_to_str-IsShrinking fuel)
        (λ s. pure-IsShrinking (some s))

  parsed_from_stream-IsShrinking :
      {T : Type 0} (parse : Text → Option T) → IsShrinking (parsed_from_stream parse fuel)
  unfolding parsed_from_stream
  parsed_from_stream-IsShrinking parse =
      bind-IsShrinking (collect_to_str fuel) _ (collect_to_str-IsShrinking fuel)
        (λ s. pure-IsShrinking (parse s))

  host_from_stream-IsShrinking :
      (parse_u16 : Text → Option ℕ) → IsShrinking (host_from_stream fuel parse_u16)
  unfolding host_from_stream
  host_from_stream-IsShrinking parse_u16 =
      bind-IsShrinking (collect_to_str fuel) _ (collect_to_str-IsShrinking fuel)
        (λ s. pure-IsShrinking (some (host_of parse_u16 s)))

  method_from-IsShrinking : (o : Option Text) → IsShrinking (method_from o)
  unfolding method_from
  method_from-IsShrinking none = pure-IsShrinking none
  method_from-IsShrinking (some s) = call-IsShrinking (Method.from_str_or_new s)

  method_from_stream-IsShrinking : IsShrinking (method_from_stream fuel)
  unfolding method_from_stream
  method_from_stream-IsShrinking =
      bind-IsShrinking (read_token fuel) method_from (read_token-IsShrinking fuel)
        method_from-IsShrinking

  connection_from-IsShrinking : (o : Option Text) → IsShrinking (connection_from o)
  unfolding connection_from
  connection_from-IsShrinking none = pure-IsShrinking none
  connection_from-IsShrinking (some t) =
      bind-IsShrinking (call (normalise_header_name t)) _
        (call-IsShrinking (normalise_header_name t)) (λ s. pure-IsShrinking (connection_of s))

  connection-IsShrinking : IsShrinking (Connection.from_stream fuel)
  unfolding Connection.from_stream
  connection-IsShrinking =
      bind-IsShrinking (read_token fuel) connection_from (read_token-IsShrinking fuel)
        connection_from-IsShrinking

  transfer_of-IsShrinking : (o : Option Text) → IsShrinking (transfer_of fuel o)
  unfolding transfer_of
  transfer_of-IsShrinking none = pure-IsShrinking none
  transfer_of-IsShrinking (some t) =
      if-IsShrinking (equal (to_ascii_lower t) (codes "chunked")) _ _
        (pure-IsShrinking (some chunked))
        (bind-IsShrinking (read_parameters fuel) _ (read_parameters-IsShrinking fuel) (
          Option-IsShrinking (pure none)
            (λ ps. pure (some (transfer_extension (to_ascii_lower t) ps))) (pure-IsShrinking none)
            (λ ps. pure-IsShrinking _)))

  transfer-IsShrinking : IsShrinking (transfer_from_stream fuel)
  unfolding transfer_from_stream
  transfer-IsShrinking =
      bind-IsShrinking (read_token fuel) (transfer_of fuel) (read_token-IsShrinking fuel)
        transfer_of-IsShrinking

  with_subtype-IsShrinking :
      (type_ : Text) (o : Option Text) → IsShrinking (with_subtype fuel type_ o)
  unfolding with_subtype with_parameters
  with_subtype-IsShrinking type_ none = pure-IsShrinking none
  with_subtype-IsShrinking type_ (some subtype) =
      bind-IsShrinking (read_parameters fuel) (with_parameters fuel type_ subtype)
        (read_parameters-IsShrinking fuel) parameters
    where
      parameters :
          (o : Option (List (Text × Text))) → IsShrinking (with_parameters fuel type_ subtype o)
      parameters none = pure-IsShrinking none
      parameters (some ps) = some_if_consumed-IsShrinking fuel _

  with_type-IsShrinking : (o : Option Text) → IsShrinking (with_type fuel o)
  unfolding with_type
  with_type-IsShrinking none = pure-IsShrinking none
  with_type-IsShrinking (some type_) = after_next-IsShrinking _ (λ slash.
      if-IsShrinking (is_next b'/' slash) (read_token fuel >>= with_subtype fuel type_) (pure none)
        (bind-IsShrinking (read_token fuel) (with_subtype fuel type_) (read_token-IsShrinking fuel)
          (with_subtype-IsShrinking type_))
        (pure-IsShrinking none))

  media-IsShrinking : IsShrinking (media_from_stream fuel)
  unfolding media_from_stream
  media-IsShrinking =
      bind-IsShrinking (read_token fuel) (with_type fuel) (read_token-IsShrinking fuel)
        with_type-IsShrinking

  ranges_loop_within :
      (rounds : ℕ) (units : List RangeUnit) (n : ℕ) (it : HeaderValueByteIterator)
      → length (pending it) ≤ n
      → IsWithin n (ranges_loop fuel rounds units it)
  unfolding ranges_loop
  ranges_loop_within zero units n it k = tt
  ranges_loop_within (suc rounds) units n it k =
      let go : (l : List RangeUnit) → IsShrinking (ranges_loop fuel rounds l) =
        λ l. record { within = ranges_loop_within rounds l } in
      (bind-IsShrinking (read_token fuel) _ (read_token-IsShrinking fuel) (
          Option-IsShrinking (pure (some (range_units units))) _ (pure-IsShrinking _) (λ s.
            let t = to_ascii_lower s in
            if-IsShrinking (equal t (codes "bytes")) (ranges_loop fuel rounds (units ++ bytes ∷ []))
              _ (go (units ++ bytes ∷ []))
              (if-IsShrinking (equal t (codes "none") && none_yet units)
                (pure (some no_acceptable_ranges))
                (ranges_loop fuel rounds (units ++ other_range_unit t ∷ [])) (pure-IsShrinking _)
                (go (units ++ other_range_unit t ∷ [])))))).within
        n it k

  read_weak_in-IsShrinking : (o : Option ℕ) → IsShrinking (read_weak_in o)
  unfolding read_weak_in after_slash
  read_weak_in-IsShrinking none = pure-IsShrinking none
  read_weak_in-IsShrinking (some b) =
      if-IsShrinking (b == b'W' || b == b'w') _ _
        (after_next-IsShrinking _ (λ slash. slashed (is_next b'/' slash)))
        (if-IsShrinking (b == double_quote) _ _ (pure-IsShrinking (some false))
          (pure-IsShrinking none))
    where
      slashed : (b : Bool) → IsShrinking (after_slash b)
      slashed false = pure-IsShrinking none
      slashed true =
          after_next-IsShrinking _
            (λ quote. pure-IsShrinking (if is_next double_quote quote then some true else none))

  read_tag-IsShrinking : (o : Option Bool) → IsShrinking (read_tag fuel o)
  unfolding read_tag
  read_tag-IsShrinking none = pure-IsShrinking none
  read_tag-IsShrinking (some weak) =
      bind-IsShrinking (read_quoted_string fuel true) _ (read_quoted_string-IsShrinking fuel true) (
        Option-IsShrinking (pure none) _ (pure-IsShrinking none)
          (λ tag. some_if_consumed-IsShrinking fuel _))

  etag-IsShrinking : IsShrinking (Etag.from_stream fuel)
  unfolding Etag.from_stream read_weak
  etag-IsShrinking =
      bind-IsShrinking read_weak (read_tag fuel)
        (after_next-IsShrinking read_weak_in read_weak_in-IsShrinking) read_tag-IsShrinking

  ranges-IsShrinking : IsShrinking (ranges_from_stream fuel)
  unfolding ranges_from_stream
  ranges-IsShrinking = record { within = ranges_loop_within fuel [] }

abbrev pub IsShrinkingIn : Row → Type 0
IsShrinkingIn r = (fuel : ℕ) → IsShrinking (r.convertible.from_stream fuel)

-- The readers of all rows.
abbrev pub AreShrinking : List Row → Type 0
AreShrinking [] = Unit
AreShrinking (r ∷ rs) = IsShrinkingIn r × AreShrinking rs

module _ (formats : TextFormats) where
  pub request_rows-AreShrinking : AreShrinking (request_rows formats)
  request_rows-AreShrinking =
      let text_row_shrinks : IsShrinkingIn (text_row [] []) = string-IsShrinking in
      let connection_row_shrinks : IsShrinkingIn (connection_row [] []) =
        list-IsShrinking Connection.convertible connection-IsShrinking in
      let date_row_shrinks : IsShrinkingIn (tm_row formats [] []) =
        λ fuel. parsed_from_stream-IsShrinking fuel (parse_tm formats) in
      let transfer_row_shrinks : IsShrinkingIn (transfer_row [] []) =
        list-IsShrinking transfer_convertible transfer-IsShrinking in
      let host_row_shrinks : IsShrinkingIn (host_row formats [] []) =
        λ fuel. host_from_stream-IsShrinking fuel formats.parse_u16 in
      let number_row_shrinks : IsShrinkingIn (uint_row formats [] []) =
        λ fuel. parsed_from_stream-IsShrinking fuel formats.parse_uint in
      let methods_row_shrinks : IsShrinkingIn (methods_row [] []) =
        list-IsShrinking method_convertible method_from_stream-IsShrinking in
      let media_row_shrinks : IsShrinkingIn (media_row [] []) = media-IsShrinking in
      (
        text_row_shrinks,
        (
          connection_row_shrinks,
          (
            date_row_shrinks,
            (
              text_row_shrinks,
              (
                text_row_shrinks,
                (
                  transfer_row_shrinks,
                  (
                    text_row_shrinks,
                    (
                      text_row_shrinks,
                      (
                        text_row_shrinks,
                        (
                          text_row_shrinks,
                          (
                            text_row_shrinks,
                            (
                              text_row_shrinks,
                              (
                                text_row_shrinks,
                                (
                                  text_row_shrinks,
                                  (
                                    text_row_shrinks,
                                    (
                                      text_row_shrinks,
                                      (
                                        host_row_shrinks,
                                        (
                                          text_row_shrinks,
                                          (
                                            date_row_shrinks,
                                            (
                                              text_row_shrinks,
                                              (
                                                text_row_shrinks,
                                                (
                                                  date_row_shrinks,
                                                  (
                                                    number_row_shrinks,
                                                    (
                                                      text_row_shrinks,
                                                      (
                                                        text_row_shrinks,
                                                        (
                                                          text_row_shrinks,
                                                          (
                                                            text_row_shrinks,
                                                            (
                                                            text_row_shrinks,
                                                            (
                                                            methods_row_shrinks,
                                                            (
                                                            text_row_shrinks,
                                                            (
                                                            text_row_shrinks,
                                                            (
                                                            number_row_shrinks,
                                                            (
                                                            text_row_shrinks,
                                                            (
                                                            text_row_shrinks,
                                                            (
                                                            text_row_shrinks,
                                                            (
                                                            media_row_shrinks,
                                                            (
                                                            date_row_shrinks,
                                                            (date_row_shrinks, tt),
                                                            ),
                                                            ),
                                                            ),
                                                            ),
                                                            ),
                                                            ),
                                                            ),
                                                            ),
                                                            ),
                                                            ),
                                                          ),
                                                        ),
                                                      ),
                                                    ),
                                                  ),
                                                ),
                                              ),
                                            ),
                                          ),
                                        ),
                                      ),
                                    ),
                                  ),
                                ),
                              ),
                            ),
                          ),
                        ),
                      ),
                    ),
                  ),
                ),
              ),
            ),
          ),
        ),
      )

  pub response_rows-AreShrinking : AreShrinking (response_rows formats)
  response_rows-AreShrinking =
      let text_row_shrinks : IsShrinkingIn (text_row [] []) = string-IsShrinking in
      let connection_row_shrinks : IsShrinkingIn (connection_row [] []) =
        list-IsShrinking Connection.convertible connection-IsShrinking in
      let date_row_shrinks : IsShrinkingIn (tm_row formats [] []) =
        λ fuel. parsed_from_stream-IsShrinking fuel (parse_tm formats) in
      let transfer_row_shrinks : IsShrinkingIn (transfer_row [] []) =
        list-IsShrinking transfer_convertible transfer-IsShrinking in
      let ranges_row_shrinks : IsShrinkingIn (ranges_row [] []) = ranges-IsShrinking in
      let etag_row_shrinks : IsShrinkingIn (etag_row [] []) = etag-IsShrinking in
      let url_row_shrinks : IsShrinkingIn (url_row formats [] []) =
        λ fuel. parsed_from_stream-IsShrinking fuel formats.parse_url in
      let methods_row_shrinks : IsShrinkingIn (methods_row [] []) =
        list-IsShrinking method_convertible method_from_stream-IsShrinking in
      let number_row_shrinks : IsShrinkingIn (uint_row formats [] []) =
        λ fuel. parsed_from_stream-IsShrinking fuel formats.parse_uint in
      let media_row_shrinks : IsShrinkingIn (media_row [] []) = media-IsShrinking in
      (
        text_row_shrinks,
        (
          connection_row_shrinks,
          (
            date_row_shrinks,
            (
              text_row_shrinks,
              (
                text_row_shrinks,
                (
                  transfer_row_shrinks,
                  (
                    text_row_shrinks,
                    (
                      text_row_shrinks,
                      (
                        text_row_shrinks,
                        (
                          text_row_shrinks,
                          (
                            ranges_row_shrinks,
                            (
                              text_row_shrinks,
                              (
                                etag_row_shrinks,
                                (
                                  url_row_shrinks,
                                  (
                                    text_row_shrinks,
                                    (
                                      text_row_shrinks,
                                      (
                                        text_row_shrinks,
                                        (
                                          text_row_shrinks,
                                          (
                                            text_row_shrinks,
                                            (
                                              methods_row_shrinks,
                                              (
                                                text_row_shrinks,
                                                (
                                                  text_row_shrinks,
                                                  (
                                                    number_row_shrinks,
                                                    (
                                                      text_row_shrinks,
                                                      (
                                                        text_row_shrinks,
                                                        (
                                                          text_row_shrinks,
                                                          (
                                                            media_row_shrinks,
                                                            (
                                                            text_row_shrinks,
                                                            (date_row_shrinks, tt),
                                                            ),
                                                          ),
                                                        ),
                                                      ),
                                                    ),
                                                  ),
                                                ),
                                              ),
                                            ),
                                          ),
                                        ),
                                      ),
                                    ),
                                  ),
                                ),
                              ),
                            ),
                          ),
                        ),
                      ),
                    ),
                  ),
                ),
              ),
            ),
          ),
        ),
      )

-- What a row reads, if there is one of the name.
abbrev IsShrinkingRow : {A : Type 0} → Option (Reading A) → Type 0
IsShrinkingRow none = Unit
IsShrinkingRow (some m) = IsShrinking m

module _ (r : Row) (rs : List Row) (fuel : ℕ)
    (h : IsShrinking (r.convertible.from_stream fuel)) where
  row_within :
      (b : Bool) (o : Option (Reading (Option (OneOf rs))))
      → IsShrinkingRow o
      → IsShrinkingRow {A = Option (OneOf (r ∷ rs))} (
          if b
          then some (do
            v ← r.convertible.from_stream fuel
            pure (elim v [ some x ↦ some (inl x) | none ↦ none ]))
          else elim o [
            | some m ↦ some (do v ← m; pure (elim v [ some x ↦ some (inr x) | none ↦ none ]))
            | none ↦ none
          ])
  row_within true o k =
      bind-IsShrinking (r.convertible.from_stream fuel) _ h (λ v. pure-IsShrinking _)
  row_within false none k = tt
  row_within false (some m) k = bind-IsShrinking m _ k (λ v. pure-IsShrinking _)

known_from_stream-IsShrinkingRow :
    (rows : List Row) (fuel : ℕ) (name : Text)
    → AreShrinking rows
    → IsShrinkingRow (known_from_stream rows fuel name)
unfolding known_from_stream
known_from_stream-IsShrinkingRow [] fuel name h = tt
known_from_stream-IsShrinkingRow (r ∷ rs) fuel name (h, hs) =
    row_within r rs fuel (h fuel) (equal name r.input_name) (known_from_stream rs fuel name)
      (known_from_stream-IsShrinkingRow rs fuel name hs)

or_extension-IsShrinking :
    (rows : List Row) (fuel : ℕ) (name : Text) (o : Option (Reading (Option (OneOf rows))))
    → IsShrinkingRow o
    → IsShrinking (or_extension rows fuel name o)
unfolding or_extension
or_extension-IsShrinking rows fuel name (some m) h =
    bind-IsShrinking m _ h (λ v. pure-IsShrinking _)
or_extension-IsShrinking rows fuel name none h =
    bind-IsShrinking (collect_to_str fuel) _ (collect_to_str-IsShrinking fuel)
      (λ value. pure-IsShrinking (some (extension_header name value)))

pub value_from_stream-IsShrinking :
    (rows : List Row) (fuel : ℕ) (name : Text)
    → AreShrinking rows
    → IsShrinking (value_from_stream rows fuel name)
unfolding value_from_stream
value_from_stream-IsShrinking rows fuel name h =
    or_extension-IsShrinking rows fuel name (known_from_stream rows fuel name)
      (known_from_stream-IsShrinkingRow rows fuel name h)
