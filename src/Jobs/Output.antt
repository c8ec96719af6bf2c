-- ===== src/Jobs/Output.antt =====
-- `_drain` of app/jobs/service.py over `append_output` of app/jobs/store.py: what a bounded output column
-- holds after any chunks.
use mathlib.Core.List.{append-nil, append_assoc}
use development_bridge.Prelude.{
  ℕ, zero, suc, String, Bool, true, false, ◌||◌, some, List, [], ◌∷◌, ◌++◌, ◌≡◌, refl, ◌∙◌, arith,
  first, first-update, first-matches, ◌==◌, ltb, take, length, length-append, length-take,
  take-append-take,
}
use development_bridge.Jobs.Models.{JobRow, JobDb}
use development_bridge.Jobs.Store.{has_id}
use development_bridge.Jobs.Lifecycle.{
  append_output, with_output, bounded, overflows, output_of, truncated_of,
}

-- `while chunk := await stream.read(64 * 1024)`: the chunks that the reads return
unfoldable pub drain : String → String → ℕ → List (List ℕ) → JobDb → JobDb
drain id stream limit [] db = db
drain id stream limit (chunk ∷ rest) db =
    drain id stream limit rest (append_output id stream chunk limit db)

abbrev pub concat : List (List ℕ) → List ℕ
concat [] = []
concat (c ∷ cs) = c ++ concat cs

-- the stream holds what was read so far, up to the limit, and says whether that was more
pub record Holds (stream : Bool) (limit : ℕ) (seen : List ℕ) (r : JobRow) : Type 0 where
  pub bytes : output_of stream r ≡ take limit seen
  pub truncated : truncated_of stream r ≡ ltb limit (length seen)

overflow_so_far :
    (limit : ℕ) (seen chunk : List ℕ)
    → (ltb limit (length seen) || ltb limit (length (take limit seen ++ chunk)))
      ≡ ltb limit (length (seen ++ chunk))
overflow_so_far limit seen chunk =
    ground (
      arith,
      length-append seen chunk,
      length-append (take limit seen) chunk,
      length-take limit seen,
    )

after : Bool → ℕ → List ℕ → JobRow → JobRow
after stream limit chunk r =
    with_output stream (bounded limit (output_of stream r) chunk)
      (overflows limit (output_of stream r) chunk (truncated_of stream r)) r

after-Holds :
    (stream : Bool) (limit : ℕ) (seen chunk : List ℕ) (r : JobRow)
    → Holds stream limit seen r
    → Holds stream limit (seen ++ chunk) (after stream limit chunk r)
unfolding after
after-Holds true limit seen chunk r h = record {
  bytes = rw h.bytes (take-append-take limit seen chunk);
  truncated = rw (h.bytes, h.truncated) (overflow_so_far limit seen chunk);
}
after-Holds false limit seen chunk r h = record {
  bytes = rw h.bytes (take-append-take limit seen chunk);
  truncated = rw (h.bytes, h.truncated) (overflow_so_far limit seen chunk);
}

append-first :
    (id stream : String) (chunk : List ℕ) (limit : ℕ) (db : JobDb) {r : JobRow}
    → first (has_id id) db.jobs ≡ some r
    → first (has_id id) (append_output id stream chunk limit db).jobs
      ≡ some (after (stream == "stdout") limit chunk r)
unfolding append_output after
append-first id stream chunk limit db {r} h =
    rw (h, append_output)
      (first-update (has_id id) (has_id id) _ db.jobs (ids (stream == "stdout") _ _)
        ∙ rw h (rw (first-matches (has_id id) db.jobs h)))
  where
    ids :
        (is_stdout : Bool) (bytes : List ℕ) (flag : Bool) (x : JobRow)
        → has_id id (with_output is_stdout bytes flag x) ≡ has_id id x
    ids true bytes flag x = refl
    ids false bytes flag x = refl

drain-Holds :
    (id stream : String) (limit : ℕ) (seen : List ℕ) (chunks : List (List ℕ)) (db : JobDb)
    {r : JobRow}
    → first (has_id id) db.jobs ≡ some r
    → Holds (stream == "stdout") limit seen r
    → (r' : JobRow) × (first (has_id id) (drain id stream limit chunks db).jobs ≡ some r')
      × Holds (stream == "stdout") limit (seen ++ concat chunks) r'
unfolding drain
drain-Holds id stream limit seen [] db {r} e h = (r, e, rw append-nil h)
drain-Holds id stream limit seen (chunk ∷ rest) db {r} e h =
    rw (← append_assoc seen chunk (concat rest)) (
      drain-Holds id stream limit (seen ++ chunk) rest (append_output id stream chunk limit db)
        {r = after (stream == "stdout") limit chunk r} (append-first id stream chunk limit db e)
        (after-Holds (stream == "stdout") limit seen chunk r h))

nil-take : (n : ℕ) → ◌≡◌ {A = List ℕ} [] (take n [])
nil-take zero = refl
nil-take (suc n) = refl

-- After a stream is drained into the job of an id, whose column was empty, the column holds the first
-- `limit` bytes of all that was read, however it was cut into chunks, and its flag says whether more
-- than `limit` bytes were read.
pub drain_bounded :
    (id stream : String) (limit : ℕ) (chunks : List (List ℕ)) (db : JobDb) {r : JobRow}
    → first (has_id id) db.jobs ≡ some r
    → output_of (stream == "stdout") r ≡ []
    → truncated_of (stream == "stdout") r ≡ false
    → (r' : JobRow) × (first (has_id id) (drain id stream limit chunks db).jobs ≡ some r')
      × (output_of (stream == "stdout") r' ≡ take limit (concat chunks))
      × (truncated_of (stream == "stdout") r' ≡ ltb limit (length (concat chunks)))
drain_bounded id stream limit chunks db {r} e none_out no_flag =
    let (r', found, h) =
      drain-Holds id stream limit [] chunks db {r = r} e
        (record { bytes = none_out ∙ nil-take limit; truncated = no_flag ∙ ground arith }) in
    (r', found, h.bytes, h.truncated)
