-- ===== src/Dbuf/Examples.antt =====
-- Tests of the buffers, and the theorems at concrete inputs.
use mathlib.Core.List.{flatten}
use snservices.Base.{
  ℕ, ◌≡◌, refl, inr, some, [], ◌∷◌, ◌++◌, Bytes, replicate, length-replicate, length-append, arith,
}
use snservices.Base.Int.{pos, negsuc}
use snservices.Dbuf.{Arena, Pool, Dbuf, dbufsiz, dbuf_put, dbuf_get, dbuf_delete}
use snservices.Dbuf.Getmsg.{dbuf_getmsg}
use snservices.Dbuf.Getmsg.Answers.{Answer}
use snservices.Dbuf.Getmsg.Contract.{dbuf_getmsg_line, dbuf_getmsg_wait}
use snservices.Dbuf.Alloc.{IsBlock, IsPool}
use snservices.Dbuf.Content.{content, IsValid}
use snservices.Dbuf.Append.{PutDone, dbuf_put_lem, dbuf_put_room}
use snservices.Dbuf.Delete.{Deleted, dbuf_delete-Deleted}
use snservices.Dbuf.Get.{Got, dbuf_get-Got}

-- Room for one block.
abbrev arena : Arena
arena = record { bufferpool = 4000; raw = replicate dbufsiz 0 }

arena-IsBlock : IsBlock arena.raw
arena-IsBlock = length-replicate {A = ℕ} dbufsiz 0

abbrev fresh : Pool
fresh = record { dbufalloc = 0; dbufblocks = 0; freelist = [] }

fresh-IsPool : IsPool arena fresh
fresh-IsPool = record { free = tt; stock = omega arith; bound = omega arith }

abbrev empty : Dbuf
empty = record { length = 0; offset = 0; head = [] }

empty-IsValid : IsValid empty
empty-IsValid = record {
  blocks = tt;
  offset = omega arith;
  enough = omega arith;
  minimal = omega arith;
  empty = λ z. refl;
}

-- "hi", CR, LF, "x"
abbrev greeting : Bytes
greeting = 104 ∷ 105 ∷ 13 ∷ 10 ∷ 120 ∷ []

-- The buffer that holds it from byte 1 on.
abbrev greeted : Dbuf
greeted = record { length = 5; offset = 1; head = ((10 ∷ greeting) ++ replicate 2026 0) ∷ [] }

abbrev used_pool : Pool
used_pool = record { dbufalloc = 1; dbufblocks = 1; freelist = [] }

greeted-IsValid : IsValid greeted
greeted-IsValid = record {
  blocks = (
    omega
        (arith, length-append (10 ∷ greeting) (replicate 2026 0), length-replicate {A = ℕ} 2026 0),
    tt,
  );
  offset = omega arith;
  enough = omega arith;
  minimal = omega arith;
  empty = λ z. absurd (omega arith);
}

used_pool-IsPool : IsPool arena used_pool
used_pool-IsPool = record { free = tt; stock = omega arith; bound = omega arith }

content-greeted : content greeted ≡ greeting
unfolding flatten
content-greeted = refl

put_then_content : (dbuf_put arena empty greeting fresh).0 ≡ pos 1
unfolding dbuf_put
put_then_content = refl

-- A pool with no room empties the buffer.
put_refused_test :
    dbuf_put (record arena { bufferpool = 100 }) empty greeting fresh ≡ (negsuc 0, empty, fresh)
unfolding dbuf_put
put_refused_test = refl

dbuf_put_lem_example : PutDone arena empty greeting fresh (dbuf_put arena empty greeting fresh)
dbuf_put_lem_example =
    dbuf_put_lem arena empty greeting fresh arena-IsBlock fresh-IsPool empty-IsValid (omega arith)
      (omega arith)

dbuf_put_room_test : (dbuf_put arena empty greeting fresh).0 ≡ pos 1
dbuf_put_room_test =
    dbuf_put_room arena empty greeting fresh arena-IsBlock fresh-IsPool empty-IsValid (omega arith)
      1 (omega arith) (omega arith)

dbuf_delete-Deleted_example :
    (dyn' : Dbuf) × (p' : Pool) × (dbuf_delete greeted 3 used_pool ≡ some (dyn', p'))
    × Deleted arena 3 greeted used_pool dyn' p'
dbuf_delete-Deleted_example =
    dbuf_delete-Deleted arena 3 greeted used_pool greeted-IsValid used_pool-IsPool (omega arith)

dbuf_get-Got_example : Got arena 9 greeted used_pool (dbuf_get greeted 9 used_pool)
dbuf_get-Got_example =
    dbuf_get-Got arena 9 greeted used_pool greeted-IsValid used_pool-IsPool (omega arith)

-- With room for 4 bytes the line "hi" comes back without its CR.
dbuf_getmsg_line_example :
    Answer arena greeted used_pool
      (dbuf_getmsg greeted 4 used_pool)
      2
      (104 ∷ 105 ∷ 0 ∷ [])
      (10 ∷ 120 ∷ [])
dbuf_getmsg_line_example =
    dbuf_getmsg_line arena 4 greeted used_pool [] (104 ∷ 105 ∷ []) (10 ∷ 120 ∷ []) 13
      greeted-IsValid used_pool-IsPool (omega arith) tt (refl, (refl, tt)) refl (omega arith)
      (omega arith) content-greeted

dbuf_getmsg_wait_test :
    Answer arena greeted used_pool (dbuf_getmsg greeted 2 used_pool) 0 [] greeting
dbuf_getmsg_wait_test =
    dbuf_getmsg_wait arena 2 greeted used_pool [] (104 ∷ 105 ∷ []) (13 ∷ 10 ∷ 120 ∷ [])
      greeted-IsValid used_pool-IsPool (omega arith) (omega arith) tt (refl, (refl, tt))
      (inr (omega arith)) content-greeted
