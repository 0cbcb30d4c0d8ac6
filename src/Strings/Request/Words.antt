-- ===== src/Strings/Request/Words.antt =====
-- commands/basic.py: what the option parser makes of the words of a SET.
use kagni.Prelude.{
  ℕ, suc, ◌+◌, ◌-◌, ◌*◌, ◌/◌, ◌^◌, ◌≤◌, ℤ, pos, negsuc, ◌+ℤ◌, ◌-ℤ◌, ◌*ℤ◌, leb_ℤ, ltb_ℤ, floor_div,
  Bool, true, false, not, ◌&&◌, ◌||◌, Option, none, some, is_none, List, [], ◌∷◌, Bytes, bytes_eq,
  ◌==◌, length, if◌then◌else◌, ◌≡◌, refl, sym, ap, ◌∙◌, arith,
}
use kagni.Text.{codes, upper, upper_byte, print_int}
use kagni.Common.Errors.{syntax}
use kagni.Common.{Result, ok, err}
use kagni.Strings.Options.{
  TimeUnit, ex, px, exat, pxat, Options, no_options, flag_step, unit_of, unit_step, no_other_unit,
  parse_extended_options,
}
use kagni.Strings.Request.{Request, given, unit_word, time_words, words, conflicting}

-- the record that the parser makes of a request
abbrev pub raw_time : Option (TimeUnit × ℤ) → Option (TimeUnit × Bytes)
raw_time none = none
raw_time (some (u, n)) = some (u, print_int n)

abbrev pub options_of : Request → Options
options_of r = record {
  nx = r.nx;
  xx = r.xx;
  get = r.get;
  keep_ttl = r.keep_ttl;
  persist = false;
  unit = raw_time r.time;
}

-- the last branch of the loop
abbrev by_unit : Bytes → List Bytes → Option Options → Result Options
by_unit raw rest (some next) = parse_extended_options true rest next
by_unit raw rest none = err syntax

accept :
    (word : Bytes) (rest : List Bytes) (o next : Options)
    → flag_step true (upper word) o ≡ some next
    → parse_extended_options true (word ∷ rest) o ≡ parse_extended_options true rest next
unfolding parse_extended_options
accept word [] o next h =
    ap (λ f. elim f as (λ _. Result Options) [ some n ↦ ok n | none ↦ err syntax ]) h
accept word (raw ∷ rest) o next h =
    ap
      (λ f. elim f as (λ _. Result Options) [
        | some n ↦ parse_extended_options true (raw ∷ rest) n
        | none ↦ by_unit raw rest (unit_step (upper word) raw o)
      ])
      h

not_flag :
    (word raw : Bytes) (rest : List Bytes) (o : Options)
    → flag_step true (upper word) o ≡ none
    → parse_extended_options true (word ∷ raw ∷ rest) o
      ≡ by_unit raw rest (unit_step (upper word) raw o)
unfolding parse_extended_options
not_flag word raw rest o h =
    ap
      (λ f. elim f as (λ _. Result Options) [
        | some n ↦ parse_extended_options true (raw ∷ rest) n
        | none ↦ by_unit raw rest (unit_step (upper word) raw o)
      ])
      h

reject :
    (word : Bytes) (rest : List Bytes) (o : Options)
    → flag_step true (upper word) o ≡ none
    → unit_of (upper word) ≡ none
    → parse_extended_options true (word ∷ rest) o ≡ err syntax
unfolding parse_extended_options unit_step
reject word [] o h no_unit =
    ap (λ f. elim f as (λ _. Result Options) [ some n ↦ ok n | none ↦ err syntax ]) h
reject word (raw ∷ rest) o h no_unit =
    not_flag word raw rest o h
    ∙ ap
        (λ f. by_unit raw rest (elim f as (λ _. Option Options) [
          | none ↦ none
          | some u ↦
              if not o.keep_ttl && not o.persist && no_other_unit u o.unit
              then some (record o { unit = some (u, raw) })
              else none
        ]))
        no_unit

conditions :
    (nx xx : Bool) (rest : List Bytes)
    → parse_extended_options true (given nx (codes "NX") (given xx (codes "XX") rest)) no_options
      ≡ (if nx && xx
          then err syntax
          else parse_extended_options true rest (record no_options { nx = nx; xx = xx }))
unfolding flag_step unit_of upper upper_byte kagni.Prelude.bytes_beq
conditions false false rest = refl
conditions false true rest =
    accept (codes "XX") rest no_options (record no_options { xx = true }) refl
conditions true false rest =
    accept (codes "NX") rest no_options (record no_options { nx = true }) refl
conditions true true rest =
    accept (codes "NX") (codes "XX" ∷ rest) no_options (record no_options { nx = true }) refl
    ∙ reject (codes "XX") rest (record no_options { nx = true }) refl refl

abbrev so_far : Bool → Bool → Bool → Bool → Options
so_far nx xx get keep = record no_options { nx = nx; xx = xx; get = get; keep_ttl = keep }

flags :
    (nx xx get keep : Bool) (rest : List Bytes)
    → parse_extended_options true
        (given get (codes "GET") (given keep (codes "KEEPTTL") rest))
        (so_far nx xx false false)
      ≡ parse_extended_options true rest (so_far nx xx get keep)
unfolding flag_step unit_of upper upper_byte kagni.Prelude.bytes_beq
flags nx xx false false rest = refl
flags nx xx false true rest =
    accept (codes "KEEPTTL") rest (so_far nx xx false false) (so_far nx xx false true) refl
flags nx xx true false rest =
    accept (codes "GET") rest (so_far nx xx false false) (so_far nx xx true false) refl
flags nx xx true true rest =
    accept (codes "GET") (codes "KEEPTTL" ∷ rest) (so_far nx xx false false)
      (so_far nx xx true false) refl
    ∙ accept (codes "KEEPTTL") rest (so_far nx xx true false) (so_far nx xx true true) refl

limited :
    (nx xx get keep : Bool) (u : TimeUnit) (n : ℤ)
    → parse_extended_options true (unit_word u ∷ print_int n ∷ []) (so_far nx xx get keep) ≡ (
        if keep
        then err syntax
        else ok (record (so_far nx xx get keep) { unit = some (u, print_int n) }))
unfolding flag_step unit_step unit_of upper upper_byte parse_extended_options
    kagni.Prelude.bytes_beq
limited nx xx get true ex n = refl
limited nx xx get true px n = refl
limited nx xx get true exat n = refl
limited nx xx get true pxat n = refl
limited nx xx get false ex n = refl
limited nx xx get false px n = refl
limited nx xx get false exat n = refl
limited nx xx get false pxat n = refl

timed :
    (nx xx get keep : Bool) (time : Option (TimeUnit × ℤ))
    → parse_extended_options true (time_words time) (so_far nx xx get keep) ≡ (
        if keep && not (is_none time)
        then err syntax
        else ok (record (so_far nx xx get keep) { unit = raw_time time }))
unfolding parse_extended_options
timed nx xx get true none = refl
timed nx xx get false none = refl
timed nx xx get true (some (u, n)) = limited nx xx get true u n
timed nx xx get false (some (u, n)) = limited nx xx get false u n

pub parse_words :
    (r : Request)
    → parse_extended_options true (words r) no_options
      ≡ (if conflicting r then err syntax else ok (options_of r))
parse_words r =
    let rest = given r.get (codes "GET") (given r.keep_ttl (codes "KEEPTTL") (time_words r.time)) in
    conditions r.nx r.xx rest
    ∙ elim (r.nx && r.xx)
        as (λ t.
          (if t
            then err syntax
            else parse_extended_options true rest (so_far r.nx r.xx false false))
          ≡ (if t || (r.keep_ttl && not (is_none r.time)) then err syntax else ok (options_of r))) [
            | true ↦ refl
            | false ↦
                flags r.nx r.xx r.get r.keep_ttl (time_words r.time)
                ∙ timed r.nx r.xx r.get r.keep_ttl r.time
          ]
