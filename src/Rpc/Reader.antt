-- ===== src/Rpc/Reader.antt =====
-- The standard library's `BufReader` over `Take` over a byte stream, as vtok_rpc/src/transport.rs
-- uses it, with the errors of that file. How many bytes each read of the stream gives is an argument.
pub mod Reference
pub mod Lines
pub mod Exact
use aws_nitro_enclaves_acm.Prelude.{
  ℕ, zero, suc, ◌+◌, ◌-◌, ◌*◌, ◌≡◌, Bool, true, false, Option, none, some, List, [], ◌∷◌, ◌++◌,
  ◌&&◌, Bytes, codes, ltb, leb, ◌==◌, bytes_eq, if◌then◌else◌, Result, ok, err, ok_or, guard, take,
  drop, length,
}
use aws_nitro_enclaves_acm.Prelude.Exec.{Exec, pure, lift, continue, ◌>>=◌, ◌>>◌}
use aws_nitro_enclaves_acm.Rpc.Line.{decode, trim, words, split_colon, parse_usize, print_usize}

pub data TransportError : Type 0 where
  bad_url io_error msg_len parse_error serde_error : TransportError

-- What the peer has sent and was not read. When it is read, the stream is at its end if it is
-- closed, and fails if it is not.
pub record Stream : Type 0 where
  pub incoming : Bytes
  pub closed : Bool

-- A `BufReader` over a `Take` of the stream.
pub record Reader : Type 0 where
  pub buffered : Bytes
  pub limit : ℕ
  pub stream : Stream
  pub open stream use *

abbrev pub capacity : ℕ
capacity = 8192

abbrev pub ReadExec : Type 0 → Type 0
ReadExec A = Exec Reader TransportError A

-- How many bytes a read of at most `most` gives, of those that are there: some, if it gives any.
abbrev pub granted : ℕ → ℕ → ℕ
granted most wish = if ltb wish 1 then 1 else if ltb most wish then most else wish

-- How many bytes may still be read, and one more.
abbrev pub enough : Reader → ℕ
enough r = suc (length r.buffered + length r.incoming)

-- `chunk n` is the number of bytes that a read would give where n are there.
module _ (chunk : ℕ → ℕ) where
  -- Take::read
  unfoldable pub take_read : ℕ → ReadExec Bytes
  take_read most r = if r.limit == 0 then (ok [], r) else elim r.incoming [
    | [] ↦ (if r.closed then ok [] else err io_error, r)
    | b ∷ bs ↦
        let allowed : ℕ = if ltb r.limit most then r.limit else most in
        let n : ℕ = granted allowed (chunk (length (b ∷ bs))) in
        let got : Bytes = take n (b ∷ bs) in
        (
          ok got,
          record {
            buffered = r.buffered;
            limit = r.limit - length got;
            stream = record { incoming = drop n (b ∷ bs); closed = r.closed };
          },
        )
  ]

  abbrev pub refill : Bytes → ReadExec (Unit {0})
  refill got r = (ok tt, record r { buffered = got })

  -- BufReader::fill_buf
  unfoldable pub fill_buf : ReadExec (Unit {0})
  unfolding take_read
  fill_buf r = elim r.buffered [
    | [] ↦ continue (take_read capacity r).0 refill (take_read capacity r).1
    | b ∷ bs ↦ (ok tt, r)
  ]

  abbrev pub cons_byte : ℕ → Bytes → ReadExec Bytes
  cons_byte b line = pure (b ∷ line)

  -- `read_until(b'\n')`. Each round but the last takes a byte.
  unfoldable pub read_until : ℕ → ReadExec Bytes
  read_until zero r = (ok [], r)
  read_until (suc fuel) r = elim (fill_buf r).0 [
    | err e ↦ (err e, (fill_buf r).1)
    | ok _ ↦
        let s = (fill_buf r).1 in
        elim s.buffered [
          | [] ↦ (ok [], s)
          | b ∷ bs ↦
              let s' : Reader = record s { buffered = bs } in
              let rest = continue (read_until fuel s').0 (cons_byte b) (read_until fuel s').1 in
              if b == b'\n' then (ok (b ∷ []), s') else rest
        ]
  ]

  -- BufRead::read_line: the characters of the line.
  unfoldable pub read_line : ReadExec (List ℕ)
  read_line r =
      continue (read_until (enough r) r).0 (λ bytes. lift (ok_or (decode bytes) io_error))
        (read_until (enough r) r).1

  abbrev pub serve : ℕ → ReadExec Bytes
  serve n r = (ok (take n r.buffered), record r { buffered = drop n r.buffered })

  abbrev pub is_nil : Bytes → Bool
  is_nil [] = true
  is_nil (b ∷ bs) = false

  -- BufReader::read: a long read on an empty buffer goes past the buffer.
  unfoldable pub read : ℕ → ReadExec Bytes
  read n r =
      if leb capacity n && is_nil r.buffered
      then take_read n r
      else continue (fill_buf r).0 (λ _. serve n) (fill_buf r).1

  -- `read_exact`. Each round takes a byte.
  unfoldable pub read_exact : ℕ → ℕ → ReadExec Bytes
  read_exact fuel zero r = (ok [], r)
  read_exact zero (suc n) r = (err io_error, r)
  read_exact (suc fuel) (suc n) r = elim (read (suc n) r).0 [
    | err e ↦ (err e, (read (suc n) r).1)
    | ok [] ↦ (err io_error, (read (suc n) r).1)
    | ok (b ∷ bs) ↦
        let next = read_exact fuel (n - length bs) (read (suc n) r).1 in
        continue next.0 (λ more. pure (b ∷ (bs ++ more))) next.1
  ]
