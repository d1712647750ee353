-- ===== src/FileQueue/Refinement.antt =====
-- The file stack against a stack of byte strings with the same limit on the bytes that it takes.
use wfts.Common.{
  ltb, if◌then◌else◌, Bool-cases, length, take_of_length-le, Result, ok, err, ℕ, ◌+◌, ◌%◌, ◌<◌, ◌≡◌,
  refl, inl, inr, List, [], ◌∷◌, ◌++◌, arith,
}
use wfts.FileQueue.{Stack, no_faults, Error, eof, put_uint16, push, pop}
use wfts.FileQueue.Laws.{push-frame, pop-frame, length-frame}

pub data Call : Type 0 where
  push_call : List ℕ → Call
  pop_call : Call

pub data Reply : Type 0 where
  pushed : Result Error (Unit {0}) → Reply
  popped : Result Error (List ℕ) → Reply

abbrev pub step : Stack → Call → Stack × Reply
step st (push_call d) = let (st', r) = push no_faults st d in (st', pushed r)
step st pop_call = let (st', r) = pop no_faults st in (st', popped r)

unfoldable pub run : Stack → List Call → Stack × List Reply
run st [] = (st, [])
run st (c ∷ cs) = let s = step st c in let rest = run s.0 cs in (rest.0, s.1 ∷ rest.1)

-- The specification: a list, its top first. `size` counts two bytes more for each string.
unfoldable pub size : List (List ℕ) → ℕ
size [] = 0
size (d ∷ ds) = size ds + (length d + 2)

abbrev pub spec_step : ℕ → List (List ℕ) → Call → List (List ℕ) × Reply
spec_step limit items (push_call d) =
    (if ltb limit (size items) then items else d ∷ items, pushed (ok tt))
spec_step limit [] pop_call = ([], popped (err eof))
spec_step limit (d ∷ items) pop_call = (items, popped (ok d))

unfoldable pub spec_run : ℕ → List (List ℕ) → List Call → List (List ℕ) × List Reply
spec_run limit items [] = (items, [])
spec_run limit items (c ∷ cs) =
    let s = spec_step limit items c in let rest = spec_run limit s.0 cs in (rest.0, s.1 ∷ rest.1)

-- The strings are short enough for the header.
abbrev pub AllShort : List (List ℕ) → Type 0
AllShort [] = Unit
AllShort (d ∷ ds) = (length d < 65534) × AllShort ds

abbrev pub CallsShort : List Call → Type 0
CallsShort [] = Unit
CallsShort (push_call d ∷ cs) = (length d < 65534) × CallsShort cs
CallsShort (pop_call ∷ cs) = CallsShort cs

-- The bytes of a stack, its top first, in the order in which they lie in the file.
unfoldable pub encode : List (List ℕ) → List ℕ
encode [] = []
encode (d ∷ ds) = encode ds ++ (d ++ put_uint16 (length d))

abbrev pub file_of : ℕ → List (List ℕ) → Stack
file_of limit items = record { rw_file = encode items; m_offset = limit }

length-encode : (items : List (List ℕ)) → length (encode items) ≡ size items
unfolding encode size
length-encode [] = refl
length-encode (d ∷ ds) = omega (arith, length-frame (encode ds) d (length d), length-encode ds)

push-refines :
    (limit : ℕ) (items : List (List ℕ)) (d : List ℕ)
    → length d < 65534
    → push no_faults (file_of limit items) d
      ≡ (file_of limit (if ltb limit (size items) then items else d ∷ items), ok tt)
unfolding encode
push-refines limit items d h = elim (Bool-cases (ltb limit (size items))) [
  | inl full ↦ rw full (unfold push in ground (arith, length-encode items))
  | inr room ↦
      let r : length d % 65536 ≡ length d = omega arith in
      rw (
        room,
        push-frame (file_of limit items) d (ground (arith, length-encode items)) (omega arith),
        r,
        take_of_length-le (length d) d (omega arith),
      )
]

step-refines :
    (limit : ℕ) (items : List (List ℕ)) (c : Call)
    → AllShort items
    → CallsShort (c ∷ [])
    → (let s = spec_step limit items c in
        (step (file_of limit items) c ≡ (file_of limit s.0, s.1)) × AllShort s.0)
step-refines limit items (push_call d) short h = (rw (push-refines limit items d h.0), ground arith)
step-refines limit [] pop_call short h = (unfold pop encode in refl, tt)
step-refines limit (d ∷ items) pop_call short h =
    (unfold encode in rw (pop-frame (encode items) d limit (omega arith)), short.1)

-- Where no call of package os fails and every string, in the stack and pushed, is shorter than 65534 bytes, any
-- sequence of Push and Pop on the file gives the replies of the same calls on a list that is used at its head, with
-- Push refused silently past the limit and Pop at the empty stack reporting
-- EOF, and leaves in the file exactly the bytes of the list's strings.
pub run-refines :
    (limit : ℕ) (items : List (List ℕ)) (calls : List Call)
    → AllShort items
    → CallsShort calls
    → run (file_of limit items) calls
      ≡ (file_of limit (spec_run limit items calls).0, (spec_run limit items calls).1)
unfolding run spec_run
run-refines limit items [] short h = refl
run-refines limit items (c ∷ cs) short h =
    let (done, kept) = step-refines limit items c short (first c h) in
    rw (done, run-refines limit (spec_step limit items c).0 cs kept (later c h))
  where
    first : (c : Call) → CallsShort (c ∷ cs) → CallsShort (c ∷ [])
    first (push_call d) h = (h.0, tt)
    first pop_call h = tt

    later : (c : Call) → CallsShort (c ∷ cs) → CallsShort cs
    later (push_call d) h = h.1
    later pop_call h = h
