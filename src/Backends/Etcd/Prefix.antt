-- ===== src/Backends/Etcd/Prefix.antt =====
-- `WatchPrefix`: the table of watches, and the answer of the first of them.
use confd.Prelude.{
  ℕ, ◌≤◌, ◌<◌, ◌≡◌, refl, ap, ◌∙◌, ◌⊎◌, inl, inr, true, false, Option, none, some, List, [], ◌∷◌,
  exists, arith, ltb, ltb→lt, Bool-cases, Option-cases, if◌then◌else◌,
}
use confd.Std.Text.{Text, codes, same, same_iff}
use confd.Std.Result.{Result, ok, err}
use confd.Std.Dict.{Dict, lookup, insert, lookup-insert}
use confd.Backends.Etcd.Watch.{
  Response, Watch, new_watch, respond_all, wait_next, wait_next-bounds, wait_next_wakes,
}

-- The loop under the lock: a key without a watch gets a new one.
unfoldable pub ensure_watches : List Text → Dict Watch → Dict Watch
ensure_watches [] watches = watches
ensure_watches (key ∷ keys) watches =
    ensure_watches keys
      (elim (lookup key watches) [ none ↦ insert key new_watch watches | some w ↦ watches ])

-- What the last select receives: a revision from the watch of a key, or the end of the context
-- after a value of `stopChan`.
pub data Received : Type 0 where
  notified : Text → Received
  cancelled : Received

-- What a watch sends while responses arrive, if it does.
unfoldable pub answer_of : ℕ → List Response → Option Watch → Option (Result ℕ)
answer_of wait_index rs none = none
answer_of wait_index rs (some w) = elim (wait_next wait_index rs w) [
  | none ↦ none
  | some n ↦ some (ok n)
]

-- `WatchPrefix`, where the watch of each key gets the responses given: the answer to what the
-- select receives, if that can be received, and the table that is left.
unfoldable pub watch_prefix :
    List Text → ℕ → (Text → List Response) → Received → Dict Watch → Option (Result ℕ) × Dict Watch
watch_prefix keys wait_index arrivals cancelled watches =
    (some (err (codes "context canceled")), ensure_watches keys watches)
watch_prefix keys wait_index arrivals (notified key) watches =
    let table = ensure_watches keys watches in
    (
      if exists (λ k. same k key) keys
          then answer_of wait_index (arrivals key) (lookup key table)
          else none,
      table,
    )

-- The watch of a key: the one that was there, or a new one if the key is asked for.
abbrev pub watch_of : Text → List Text → Dict Watch → Option Watch
watch_of key keys watches = elim (lookup key watches) [
  | some w ↦ some w
  | none ↦ (if exists (λ k. same k key) keys then some new_watch else none)
]

lookup-ensure_watches :
    (key : Text) (keys : List Text) (watches : Dict Watch)
    → lookup key (ensure_watches keys watches) ≡ watch_of key keys watches
unfolding ensure_watches
lookup-ensure_watches key [] watches = ground (arith, Option-cases (lookup key watches))
lookup-ensure_watches key (k ∷ keys) watches =
    let table : Dict Watch = elim (lookup k watches) [
      | none ↦ insert k new_watch watches
      | some w ↦ watches
    ] in
    let at_key : same k key ≡ true → lookup k watches ≡ lookup key watches =
      λ e. ap (λ j. lookup j watches) ((same_iff k key).0 e) in
    lookup-ensure_watches key keys table
    ∙ ground (arith, at_key, lookup-insert k key new_watch watches)

answer_lem :
    (last : ℕ) (rs : List Response) (w : Watch)
    → (((respond_all rs w).revision ≤ last) × (answer_of last rs (some w) ≡ none))
      ⊎ ((n : ℕ) × (answer_of last rs (some w) ≡ some (ok n))
          × (last < n)
          × (n ≤ (respond_all rs w).revision))
unfolding answer_of
answer_lem last rs w = elim (Option-cases (wait_next last rs w)) [
  | inl e ↦
      inl (quiet e (Bool-cases (ltb last (respond_all rs w).revision)), rw (answer_of, e) refl)
  | inr (n, e) ↦
      let (l, u) = wait_next-bounds last rs w n e in inr (n, rw (answer_of, e) refl, l, u)
]
  where
    quiet :
        wait_next last rs w ≡ none
        → (ltb last (respond_all rs w).revision ≡ true)
          ⊎ (ltb last (respond_all rs w).revision ≡ false)
        → (respond_all rs w).revision ≤ last
    quiet e (inl l) = let (n, f) = wait_next_wakes last rs w (ltb→lt _ _ l) in absurd (cc)
    quiet e (inr g) = ground (arith, g)

asked-watch_of :
    (key : Text) (keys : List Text) (watches : Dict Watch)
    → exists (λ k. same k key) keys ≡ true
    → (w : Watch) × (watch_of key keys watches ≡ some w)
asked-watch_of key keys watches h = go (lookup key watches)
  where
    go :
        (o : Option Watch)
        → (w : Watch) × ((elim o [
          | some v ↦ some v
          | none ↦ (if exists (λ k. same k key) keys then some new_watch else none)
        ])
            ≡ some w)
    go none = (new_watch, rw h refl)
    go (some w) = (w, refl)

-- `WatchPrefix` answers for a key that is asked for exactly where the watch of the key comes to a
-- revision beyond the index: the watch that the client had for it, or a new one. The answer is
-- beyond the index, and no further than the watch has come.
pub watch_prefix-answers :
    (keys : List Text) (wait_index : ℕ) (arrivals : Text → List Response) (key : Text)
    (watches : Dict Watch)
    → exists (λ k. same k key) keys ≡ true
    → (w : Watch) × (watch_of key keys watches ≡ some w)
      × (((respond_all (arrivals key) w).revision ≤ wait_index)
            × ((watch_prefix keys wait_index arrivals (notified key) watches).0 ≡ none)
          ⊎ ((n : ℕ) × ((watch_prefix keys wait_index arrivals (notified key) watches).0
                ≡ some (ok n))
              × (wait_index < n)
              × (n ≤ (respond_all (arrivals key) w).revision)))
unfolding watch_prefix
watch_prefix-answers keys wait_index arrivals key watches h =
    let (w, e) = asked-watch_of key keys watches h in
    (
      w,
      e,
      rw (h, lookup-ensure_watches key keys watches, e) (answer_lem wait_index (arrivals key) w),
    )
