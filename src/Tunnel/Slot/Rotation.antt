-- ===== src/Tunnel/Slot/Rotation.antt =====
-- The order in which `NextSlot` gives the slots.
use aliyun_odps_go_sdk.Prelude.{
  ℕ, zero, suc, ◌+◌, ◌<◌, ◌≡◌, refl, sym, ap, ◌∙◌, subst, true, false, some, List, [], ◌∷◌, ◌++◌,
  arith, length, get_elem?, leb, length-append, append_assoc, append-nil,
}
use aliyun_odps_go_sdk.Text.Unicode.{is_empty}
use aliyun_odps_go_sdk.Outcome
use aliyun_odps_go_sdk.Outcome.{Outcome, ok, err, panic, out_of_fuel}
use aliyun_odps_go_sdk.Tunnel.Slot.{Slot, SlotError, Selector, take_slot, next_slot}

-- As many calls of `NextSlot` as `n` says, and the slots that they return.
unfoldable pub next_slots : ℕ → Selector → Outcome Selector SlotError (List Slot)
unfolding next_slot
next_slots zero s = ok [] s
next_slots (suc n) s =
    Outcome.bind (next_slot s) λ e s'. Outcome.bind (next_slots n s') λ es s''. ok (e ∷ es) s''

get_elem?-append :
    (pre : List Slot) (e : Slot) (es : List Slot) → get_elem? (pre ++ e ∷ es) (length pre) ≡ some e
get_elem?-append [] e es = refl
get_elem?-append (p ∷ pre) e es = get_elem?-append pre e es

is_empty-append : (pre : List Slot) (e : Slot) (es : List Slot) → is_empty (pre ++ e ∷ es) ≡ false
is_empty-append [] e es = refl
is_empty-append (p ∷ pre) e es = refl

-- Inside the list the slot at the index is returned.
next_slot-inside :
    (pre : List Slot) (e : Slot) (es : List Slot)
    → next_slot (record { index = length pre; arr = pre ++ e ∷ es })
      ≡ ok e (record { index = suc (length pre); arr = pre ++ e ∷ es })
unfolding next_slot take_slot
next_slot-inside pre e es =
    let inside : leb (length (pre ++ e ∷ es)) (length pre) ≡ false =
      ground (arith, length-append pre (e ∷ es)) in
    rw (is_empty-append pre e es, inside, get_elem?-append pre e es)

bind_ok : {A : Type 0} (o : Outcome Selector SlotError A) → Outcome.bind o (λ a s. ok a s) ≡ o
bind_ok (ok a s) = refl
bind_ok (err e s) = refl
bind_ok (panic p) = refl
bind_ok out_of_fuel = refl

bind_cons :
    (x : Slot) (es : List Slot) (o : Outcome Selector SlotError (List Slot))
    → Outcome.bind (Outcome.bind o λ fs s. ok (es ++ fs) s) (λ fs s. ok (x ∷ fs) s)
      ≡ Outcome.bind o λ fs s. ok ((x ∷ es) ++ fs) s
bind_cons x es (ok a s) = refl
bind_cons x es (err e s) = refl
bind_cons x es (panic p) = refl
bind_cons x es out_of_fuel = refl

-- The slots `es` from the index on are returned, and then those of `n` more calls.
next_slots-inside :
    (pre es rest : List Slot) (total n : ℕ)
    → total ≡ length es + n
    → next_slots total (record { index = length pre; arr = pre ++ (es ++ rest) })
      ≡ Outcome.bind
          (next_slots n (record { index = length pre + length es; arr = pre ++ (es ++ rest) }))
          λ fs s. ok (es ++ fs) s
unfolding next_slots
next_slots-inside pre [] rest total n e =
    let same : total ≡ n = omega arith in
    let here : length pre + 0 ≡ length pre = omega arith in rw (same, here) (sym (bind_ok _))
next_slots-inside pre (x ∷ es) rest total n e =
    let step : total ≡ suc (length es + n) = omega arith in
    let longer : length (pre ++ x ∷ []) ≡ suc (length pre) =
      omega (arith, length-append pre (x ∷ [])) in
    let further : length pre + suc (length es) ≡ length (pre ++ x ∷ []) + length es = omega arith in
    rw
      (
        step,
        next_slot-inside pre x (es ++ rest),
        sym longer,
        sym (append_assoc pre (x ∷ []) (es ++ rest)),
        next_slots-inside (pre ++ x ∷ []) es rest (length es + n) n refl,
        further,
      )
      (bind_cons x es (
        next_slots n (record {
          index = length (pre ++ x ∷ []) + length es;
          arr = (pre ++ x ∷ []) ++ (es ++ rest);
        })))

-- Behind the last slot comes the first.
next_slot-wrap :
    (e : Slot) (es : List Slot)
    → next_slot (record { index = length (e ∷ es); arr = e ∷ es })
      ≡ next_slot (record { index = 0; arr = e ∷ es })
unfolding next_slot
next_slot-wrap e es =
    let past : leb (suc (length es)) (suc (length es)) ≡ true = ground arith in
    let inside : leb (suc (length es)) 0 ≡ false = ground arith in rw (past, inside)

next_slots-wrap :
    (arr : List Slot) (n : ℕ)
    → 0 < n
    → 0 < length arr
    → next_slots n (record { index = length arr; arr = arr })
      ≡ next_slots n (record { index = 0; arr = arr })
unfolding next_slots
next_slots-wrap arr zero h k = absurd (omega arith)
next_slots-wrap [] (suc n) h k = absurd (omega arith)
next_slots-wrap (e ∷ es) (suc n) h k = rw (next_slot-wrap e es)

next_slots-last :
    (pre es rest : List Slot)
    → next_slots (length es) (record { index = length pre; arr = pre ++ (es ++ rest) })
      ≡ ok es (record { index = length pre + length es; arr = pre ++ (es ++ rest) })
unfolding next_slots
next_slots-last pre es rest =
    rw (next_slots-inside pre es rest (length es) 0 (omega arith)) (nothing_more es _)
  where
    nothing_more :
        (es : List Slot) (s : Selector)
        → Outcome.bind (next_slots 0 s) (λ fs s'. ok (es ++ fs) s') ≡ ok es s
    nothing_more es s = rw (append-nil es)

next_slots-start :
    (front back : List Slot)
    → 0 < length front
    → next_slots (length front) (record { index = length (front ++ back); arr = front ++ back })
      ≡ ok front (record { index = length front; arr = front ++ back })
next_slots-start front back h =
    let some_slot : 0 < length (front ++ back) = omega (arith, length-append front back) in
    rw (next_slots-wrap (front ++ back) (length front) h some_slot, next_slots-last [] front back)
      (ap (λ i. ok front (record { index = i; arr = front ++ back })) (omega arith))

-- As many calls of `NextSlot` as there are slots return every slot once, in the order of the list
-- from the index on and then from its start, with no error.
pub next_slots-rotation :
    (front back : List Slot)
    → (index : ℕ) × (next_slots
          (length (front ++ back))
          (record { index = length front; arr = front ++ back })
        ≡ ok (back ++ front) (record { index = index; arr = front ++ back }))
next_slots-rotation [] back = (
  length back,
  subst
        (λ l.
          next_slots (length back) (record { index = 0; arr = l })
          ≡ ok back (record { index = length back; arr = l }))
        (append-nil back)
        (next_slots-last [] back []
          ∙ ap (λ i. ok back (record { index = i; arr = back ++ [] })) (omega arith))
      ∙ ap (λ l. ok l (record { index = length back; arr = back })) (sym (append-nil back)),
)
next_slots-rotation (f ∷ fs) back =
    let front = f ∷ fs in
    let whole : length front + length back ≡ length (front ++ back) =
      omega (arith, length-append front back) in
    (
      length front,
      ap
            (λ l.
              next_slots (length (front ++ back))
                (record { index = length front; arr = front ++ l }))
            (sym (append-nil back))
          ∙ (next_slots-inside front back [] (length (front ++ back)) (length front)
                (omega (arith, length-append front back))
              ∙ rw (append-nil back, whole, next_slots-start front back (omega arith))),
    )
