-- ===== src/Headers/Media.antt =====
-- src/libhttp/headers/content_type.rs, transfer_encoding.rs, accept_ranges.rs and host.rs: four
-- header types, and how they are read. The parser of numbers, `from_str::<u16>`, is a parameter.
pub mod Writing
use rust_http.Base.{
  ℕ, zero, suc, Bool, true, false, ◌&&◌, Option, none, some, List, [], ◌∷◌, ◌++◌, ◌==◌,
  if◌then◌else◌, Text, codes, equal, to_ascii_lower, Run, runs_out,
}
use rust_http.Headers.Readers.{
  Reading, ◌>>=◌, pure, read_next, is_next, read_token, read_parameters, some_if_consumed,
  collect_to_str,
}

abbrev pub Parameters : Type 0
Parameters = List (Text × Text)

pub record MediaType : Type 0 where
  pub type_ : Text
  pub subtype : Text
  pub parameters : Parameters

pub data TransferCoding : Type 0 where
  chunked : TransferCoding
  transfer_extension : Text → Parameters → TransferCoding

pub data RangeUnit : Type 0 where
  bytes : RangeUnit
  other_range_unit : Text → RangeUnit

pub data AcceptableRanges : Type 0 where
  range_units : List RangeUnit → AcceptableRanges
  no_acceptable_ranges : AcceptableRanges

pub record Host : Type 0 where
  pub name : Text
  pub port : Option ℕ

-- `range_units.len() == 0`
abbrev pub none_yet : List RangeUnit → Bool
none_yet [] = true
none_yet (_ ∷ _) = false

-- `s.splitn_iter(':', 1)`: the text before the first colon, and what follows it.
unfoldable pub split_colon : Text → Text × Option Text
split_colon [] = ([], none)
split_colon (c ∷ cs) =
    let (front, back) = split_colon cs in if c == b':' then ([], some cs) else (c ∷ front, back)

unfoldable pub host_of : (Text → Option ℕ) → Text → Host
unfolding split_colon
host_of parse_u16 s =
    let (front, back) = split_colon s in
    record { name = front; port = elim back [ some p ↦ parse_u16 p | none ↦ none ] }

module _ (fuel : ℕ) where
  unfoldable pub with_parameters : Text → Text → Option Parameters → Reading (Option MediaType)
  with_parameters type_ subtype none = pure none
  with_parameters type_ subtype (some parameters) =
      some_if_consumed fuel (record { type_ = type_; subtype = subtype; parameters = parameters })

  unfoldable pub with_subtype : Text → Option Text → Reading (Option MediaType)
  unfolding with_parameters
  with_subtype type_ none = pure none
  with_subtype type_ (some subtype) = do
    parameters ← read_parameters fuel
    with_parameters type_ subtype parameters

  unfoldable pub with_type : Option Text → Reading (Option MediaType)
  unfolding with_subtype
  with_type none = pure none
  with_type (some type_) = do
    slash ← read_next
    if is_next b'/' slash
        then (do subtype ← read_token fuel; with_subtype type_ subtype)
        else pure none

  unfoldable pub media_from_stream : Reading (Option MediaType)
  unfolding with_type
  media_from_stream = do type_ ← read_token fuel; with_type type_

  unfoldable pub transfer_of : Option Text → Reading (Option TransferCoding)
  transfer_of none = pure none
  transfer_of (some t) =
      let token = to_ascii_lower t in
      if equal token (codes "chunked") then pure (some chunked) else (do
        parameters ← read_parameters fuel
        elim parameters [ some ps ↦ pure (some (transfer_extension token ps)) | none ↦ pure none ])

  unfoldable pub transfer_from_stream : Reading (Option TransferCoding)
  unfolding transfer_of
  transfer_from_stream = do token ← read_token fuel; transfer_of token

  -- The loop of the ranges; `rounds` bounds its rounds.
  unfoldable pub ranges_loop : ℕ → List RangeUnit → Reading (Option AcceptableRanges)
  ranges_loop zero units it = runs_out
  ranges_loop (suc rounds) units it =
      (do
        t ← read_token fuel
        elim t [
          | none ↦ pure (some (range_units units))
          | some s ↦
              let token = to_ascii_lower s in
              let with_bytes = ranges_loop rounds (units ++ bytes ∷ []) in
              let with_other = ranges_loop rounds (units ++ other_range_unit token ∷ []) in
              if equal token (codes "bytes")
              then with_bytes
              else if equal token (codes "none") && none_yet units
              then pure (some no_acceptable_ranges)
              else with_other
        ])
        it

  unfoldable pub ranges_from_stream : Reading (Option AcceptableRanges)
  unfolding ranges_loop
  ranges_from_stream = ranges_loop fuel []

  unfoldable pub host_from_stream : (Text → Option ℕ) → Reading (Option Host)
  unfolding host_of
  host_from_stream parse_u16 = do s ← collect_to_str fuel; pure (some (host_of parse_u16 s))
