-- ===== src/Realtime/Unified/Queue/Latest.antt =====
-- src/spooled/realtime/unified.py: what the queue of `events()` holds when nobody takes events out.
use spooled_sdk_python.Prelude.{
  ℕ, zero, suc, ◌-◌, ◌≤◌, ◌<◌, length-append, ltb, some, List, [], ◌∷◌, ◌++◌, length, ◌≡◌, refl,
  sym, ◌∙◌, ap, arith, Bool-cases, if_true, if_false, inl, inr,
}
use spooled_sdk_python.Realtime.Events.{RealtimeEvent}
use spooled_sdk_python.Realtime.Unified.Queue.{Feed, put, put_if, dispatch_event}

-- The events of a list, dispatched one after the other.
unfoldable pub dispatch_all : List RealtimeEvent → Feed → Feed
dispatch_all [] f = f
dispatch_all (e ∷ es) f = dispatch_all es (dispatch_event e f)

-- The last `n` of a list.
unfoldable pub skip {ℓ} : {A : Type ℓ} → ℕ → List A → List A
skip zero xs = xs
skip (suc n) [] = []
skip (suc n) (x ∷ xs) = skip n xs

abbrev pub last_of : ℕ → List RealtimeEvent → List RealtimeEvent
last_of n xs = skip (length xs - n) xs

append_assoc :
    (xs : List RealtimeEvent) (e : RealtimeEvent) (es : List RealtimeEvent)
    → (xs ++ e ∷ []) ++ es ≡ xs ++ e ∷ es
append_assoc [] e es = refl
append_assoc (x ∷ xs) e es = ap (λ l. x ∷ l) (append_assoc xs e es)

last_of-cons :
    (n : ℕ) (e : RealtimeEvent) (es : List RealtimeEvent)
    → n ≤ length es
    → last_of n (e ∷ es) ≡ last_of n es
unfolding skip
last_of-cons n e es h =
    let k : suc (length es) - n ≡ suc (length es - n) = omega (arith, h) in
    ap (λ m. skip m (e ∷ es)) k

length-put :
    (n : ℕ) (e : RealtimeEvent) (q : List RealtimeEvent) → length q ≤ n → length (put n e q) ≤ n
unfolding put
length-put n e [] h = ground arith
length-put n e (x ∷ q) h = ground (arith, h, length-append q (e ∷ []))

-- A put, before the events that follow.
put-last_of :
    (n : ℕ) (e : RealtimeEvent) (q es : List RealtimeEvent)
    → 0 < n
    → length q ≤ n
    → last_of n (put n e q ++ es) ≡ last_of n (q ++ e ∷ es)
unfolding put
put-last_of n e [] es p h =
    ap (λ l. last_of n (l ++ es)) (if_true (ltb 0 n) (e ∷ []) _ (ground (arith, p)))
put-last_of n e (x ∷ q) es p h = elim (Bool-cases (ltb (length (x ∷ q)) n)) [
  | inl b ↦
      ap (λ l. last_of n (l ++ es)) (if_true (ltb (suc (length q)) n) (x ∷ q ++ e ∷ []) _ b)
      ∙ ap (last_of n) (append_assoc (x ∷ q) e es)
  | inr b ↦
      let long : n ≤ length (q ++ e ∷ es) = ground (arith, h, b, length-append q (e ∷ es)) in
      let room = if_true (ltb (length q) n) (q ++ e ∷ []) q (ground (arith, h)) in
      let full = if_false (ltb (suc (length q)) n) (x ∷ q ++ e ∷ []) _ b in
      ap (λ l. last_of n (l ++ es)) (full ∙ room)
      ∙ (ap (last_of n) (append_assoc q e es) ∙ sym (last_of-cons n x (q ++ e ∷ es) long))
]

last_of-short : (n : ℕ) (q : List RealtimeEvent) → length q ≤ n → last_of n q ≡ q
unfolding skip
last_of-short n q h = let k : length q - n ≡ 0 = omega (arith, h) in ap (λ m. skip m q) k

append-nil : (q : List RealtimeEvent) → q ++ [] ≡ q
append-nil [] = refl
append-nil (x ∷ q) = ap (λ l. x ∷ l) (append-nil q)

-- Where `events()` is in use, its queue has room for at least one event and not more events wait
-- than it holds, then after any events that nobody takes out meanwhile, the queue holds the latest
-- of all of them in their order, as many as it has room for, and the handlers were called with
-- every one, in order.
pub dispatch_all_keeps_latest :
    (es q : List RealtimeEvent) (f : Feed)
    → f.buffer ≡ some q
    → 0 < f.maxsize
    → length q ≤ f.maxsize
    → ((dispatch_all es f).buffer ≡ some (last_of f.maxsize (q ++ es)))
      × ((dispatch_all es f).handled ≡ f.handled ++ es)
unfolding dispatch_all dispatch_event
dispatch_all_keeps_latest [] q f b p h = (
  b ∙ ap some (sym (last_of-short f.maxsize q h) ∙ ap (last_of f.maxsize) (sym (append-nil q))),
  sym (append-nil f.handled),
)
dispatch_all_keeps_latest (e ∷ es) q f b p h =
    let (k, l) =
      dispatch_all_keeps_latest es (put f.maxsize e q) (dispatch_event e f)
        (ap (put_if f.maxsize e) b) p (length-put f.maxsize e q h) in
    (k ∙ ap some (put-last_of f.maxsize e q es p h), l ∙ append_assoc f.handled e es)
