-- ===== src/Server/Response/Collection.antt =====
-- The collection of the table of responses as the headers of a response: the fields of the rows 5,
-- 22 and 26. The calls of `write` that `write_all` makes are put together to one; where they are
-- cut makes no difference to what is sent, by the theorems on the bytes of a response.
use rust_http.Base.{
  ℕ, zero, suc, ◌≡◌, refl, inl, inr, Option, none, some, List, [], ◌∷◌, returns, ◌>>=◌,
}
use rust_http.Headers.Table as Table
use rust_http.Headers.Table.{Row, Fields, TreeMap, insert_field, write_all}
use rust_http.Headers.Types.{TextFormats}
use rust_http.Headers.Media.{TransferCoding}
use rust_http.Headers.Rows.{response_rows, response}
use rust_http.Server.Response.{ResponseHeaders, ResponseHeadersLaws}

-- `None` in the field of a row.
unfoldable pub clear_field : (rows : List Row) → ℕ → Fields rows → Fields rows
clear_field [] i fs = fs
clear_field (r ∷ rs) zero (f, fs) = (none, fs)
clear_field (r ∷ rs) (suc i) (f, fs) = (f, clear_field rs i fs)

module _ (formats : TextFormats) (tree : TreeMap) (rounds : ℕ) where
  abbrev pub ResponseCollection : Type 0
  ResponseCollection = Table.HeaderCollection (response_rows formats) tree

  unfoldable pub response_headers : ResponseHeaders ResponseCollection
  unfolding clear_field insert_field
  response_headers = record {
    empty = Table.new (response_rows formats) tree;
    content_length = λ c. c.fields.1.1.1.1.1.1.1.1.1.1.1.1.1.1.1.1.1.1.1.1.1.1.0;
    set_content_type = λ m c. record c {
      fields =
          insert_field (response_rows formats)
            (inr (
              inr (
                inr (
                  inr (
                    inr (
                      inr (
                        inr (
                          inr (
                            inr (
                              inr (
                                inr (
                                  inr (
                                    inr (
                                      inr (
                                        inr (
                                          inr (
                                            inr (
                                              inr (
                                                inr (
                                                  inr (
                                                    inr (
                                                      inr (
                                                        inr (
                                                          inr (
                                                            inr
                                                            (inr (inl m)))))))))))))))))))))))))))
            c.fields;
    };
    set_content_length = λ n c. record c {
      fields =
          insert_field (response_rows formats)
            (inr (
              inr (
                inr (
                  inr (
                    inr (
                      inr (
                        inr (
                          inr (
                            inr (
                              inr (
                                inr (
                                  inr (
                                    inr (
                                      inr (
                                        inr (
                                          inr (
                                            inr
                                              (inr (inr (inr (inr (inr (inl n)))))))))))))))))))))))
            c.fields;
    };
    set_transfer_encoding = λ t c. elim t [
      | some codings ↦ record c {
        fields =
            insert_field (response_rows formats) (inr (inr (inr (inr (inr (inl codings))))))
              c.fields;
      }
      | none ↦ record c { fields = clear_field (response_rows formats) 5 c.fields }
    ];
    writes =
        λ c. write_all (response formats) tree c 31 rounds [] >>= λ bytes. returns (bytes ∷ []);
  }

  length_kept :
      (t : Option (List TransferCoding)) (c : ResponseCollection)
      → response_headers.content_length (response_headers.set_transfer_encoding t c)
        ≡ response_headers.content_length c
  unfolding response_headers
  length_kept none c = refl
  length_kept (some t) c = refl

  -- The three fields are apart.
  pub response_headers-ResponseHeadersLaws : ResponseHeadersLaws response_headers
  unfolding response_headers
  response_headers-ResponseHeadersLaws = record {
    length_set = λ n c. refl;
    length_kept = length_kept;
  }
