-- ===== src/Dbuf/Getmsg.antt =====
-- `dbuf_getmsg` of ircd/src/dbuf.c: take one line, ended by CR or LF, out of the buffer.
pub mod Walk
pub mod Line
pub mod Answers
pub mod Contract
use snservices.Base.{
  ℕ, zero, suc, ◌+◌, ◌-◌, Bool, Option, none, some, List, [], ◌∷◌, ◌++◌, min, leb, ltb, ◌==◌, ◌||◌,
  if◌then◌else◌, Bytes, get_elem?,
}
use snservices.Base.Int.{ℤ, pos, negsuc}
use snservices.Dbuf.{Dbuf, Pool, dbufsiz, dbuf_delete, dbuf_get}

abbrev pub is_eol : ℕ → Bool
is_eol c = c == 10 || c == 13

-- Where the `while` loop stands: `d` and `s` as the blocks from `d` on with a position in the first,
-- and `i`, of which 0 stands for every value that is not positive (`--i` is zero from 1 only).
pub record Cursor : Type 0 where
  pub blocks : List Bytes
  pub at : ℕ
  pub i : ℕ

-- `s = dyn->offset + d->data`, and `i` cut down to `dlen`.
abbrev pub start : Dbuf → Cursor
start dyn = record { blocks = dyn.head; at = dyn.offset; i = min (dbufsiz - dyn.offset) dyn.length }

-- `if (!--i) { if ((d = d->next)) { s = d->data; i = MIN(DBUFSIZ, dlen); } } else s++;`
step : ℕ → Cursor → Cursor
step dlen c =
    if c.i == 1
    then elim c.blocks [
      | _ ∷ b ∷ bs ↦ record { blocks = b ∷ bs; at = 0; i = min dbufsiz dlen }
      | _ ↦ record c { i = 0 }
    ]
    else record c { at = c.at + 1; i = c.i - 1 }

-- `*s`; `none` is a read outside of the block.
peek : Cursor → Option ℕ
peek c = elim c.blocks [ [] ↦ none | b ∷ _ ↦ get_elem? b c.at ]

-- How the `while` loop ends: at the end of a line, with `dlen` and `length` as they are then, or
-- without one, or by a bad read.
pub data Scan : Type 0 where
  eol : ℕ → ℕ → Scan
  no_eol : Scan
  bad_read : Scan

pub scan : ℕ → ℕ → Cursor → Scan
unfolding step peek
scan zero len c = no_eol
scan (suc dlen) zero c = no_eol
scan (suc dlen) (suc len) c = elim (peek c) [
  | none ↦ bad_read
  | some x ↦ if is_eol x then eol dlen (suc len) else scan dlen len (step dlen c)
]

-- The value returned, the bytes written to the caller's buffer, and the state after.
pub record Msg : Type 0 where
  pub result : ℤ
  pub buf : Bytes
  pub dyn : Dbuf
  pub pool : Pool

abbrev pub nothing : ℤ → Dbuf → Pool → Option Msg
nothing r dyn p = some (record { result = r; buf = []; dyn = dyn; pool = p })

-- `if (copy - i > 0) dbuf_delete(dyn, copy - i);`
pub delete_rest : ℕ → Dbuf → Pool → Option (Dbuf × Pool)
delete_rest n dyn p = if ltb 0 n then dbuf_delete dyn n p else some (dyn, p)

-- From "copy as much of the message as wanted" on.
pub take_line : ℕ → ℕ → Dbuf → Pool → Option Msg
unfolding delete_rest
take_line copy len dyn p = elim (dbuf_get dyn (min copy len) p) [
  | none ↦ none
  | some (moved, dyn', p') ↦
      let i = snservices.Base.length moved in
      elim (delete_rest (copy - i) dyn' p') [
        | none ↦ none
        | some (dyn'', p'') ↦
            some (record { result = pos i; buf = moved ++ 0 ∷ []; dyn = dyn''; pool = p'' })
      ]
]

-- From the label `getmsg_init` on. A line that is empty is deleted, and the search starts again.
pub getmsg_loop : ℕ → Dbuf → ℕ → Pool → Option Msg
unfolding scan take_line
getmsg_loop zero dyn len p = none
getmsg_loop (suc fuel) dyn len p =
    if leb dbufsiz dyn.offset then nothing (negsuc 0) dyn p else elim dyn.head [
      | [] ↦ nothing (pos 0) dyn p
      | _ ↦
          if dyn.length == 0
          then nothing (pos 0) dyn p
          else elim (scan dyn.length len (start dyn)) [
            | no_eol ↦ nothing (pos 0) dyn p
            | bad_read ↦ none
            | eol dlen len' ↦
                if dyn.length - dlen == 1
                then elim (dbuf_delete dyn 1 p) [
                  | none ↦ none
                  | some (dyn', p') ↦ getmsg_loop fuel dyn' len p'
                ]
                else take_line (dyn.length - dlen) len' dyn p
          ]
    ]

pub dbuf_getmsg : Dbuf → ℕ → Pool → Option Msg
unfolding getmsg_loop
dbuf_getmsg dyn len p = getmsg_loop (suc dyn.length) dyn len p
