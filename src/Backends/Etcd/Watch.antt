-- ===== src/Backends/Etcd/Watch.antt =====
-- `Watch`: the revision that the watching goroutine keeps, and `WaitNext`.
use confd.Prelude.{
  ℕ, ◌+◌, ◌≤◌, ◌<◌, ◌≡◌, refl, Option, none, some, List, [], ◌∷◌, ltb, if◌then◌else◌, arith, ◌⊎◌,
  inl, inr, Bool-cases,
}

-- A response of the watch: the revision of a compaction (0 for none) and that of its header.
pub record Response : Type 0 where
  pub compact : ℕ
  pub header : ℕ

-- The revision and the number of times that the channel was closed and made anew.
pub record Watch : Type 0 where
  pub revision : ℕ
  pub closed : ℕ

abbrev pub new_watch : Watch
new_watch = record { revision = 0; closed = 0 }

-- `update`
unfoldable pub update : ℕ → Watch → Watch
update revision w = record { revision = revision; closed = w.closed + 1 }

-- One response in the loop of `createWatch`.
unfoldable pub respond : Response → Watch → Watch
respond r w =
    if ltb w.revision r.compact
    then update r.compact w
    else if ltb w.revision r.header
    then update r.header w
    else w

unfoldable pub respond_all : List Response → Watch → Watch
respond_all [] w = w
respond_all (r ∷ rs) w = respond_all rs (respond r w)

-- The revision from which the watch is created again: `none` for the latest.
unfoldable pub resume_from : Watch → Option ℕ
resume_from w = if ltb 0 w.revision then some (w.revision + 1) else none

-- `WaitNext`: what is sent to `notify`, if the loop comes to it while these responses arrive. The
-- test is made at first and after each response that closed the channel.
unfoldable pub wait_next : ℕ → List Response → Watch → Option ℕ
wait_next last [] w = if ltb last w.revision then some w.revision else none
wait_next last (r ∷ rs) w =
    let later = wait_next last rs (respond r w) in
    if ltb last w.revision then some w.revision else later

respond_mono : (r : Response) (w : Watch) → w.revision ≤ (respond r w).revision
unfolding respond update
respond_mono r w = ground arith

-- The revision of a watch never falls, it comes up to that of a compaction, and a response closes
-- the channel, once, exactly where it raises the revision.
pub respond_lem :
    (r : Response) (w : Watch)
    → (w.revision ≤ (respond r w).revision)
      × (r.compact ≤ (respond r w).revision)
      × ((w.revision ≡ (respond r w).revision) × ((respond r w).closed ≡ w.closed)
          ⊎ ((w.revision < (respond r w).revision) × ((respond r w).closed ≡ w.closed + 1)))
unfolding respond update
respond_lem r w = ground arith

respond_all_mono : (rs : List Response) (w : Watch) → w.revision ≤ (respond_all rs w).revision
unfolding respond_all
respond_all_mono [] w = omega arith
respond_all_mono (r ∷ rs) w = omega (arith, respond_mono r w, respond_all_mono rs (respond r w))

-- `WaitNext` sends only a revision beyond the last one, at most the one that the watch comes to.
pub wait_next-bounds :
    (last : ℕ) (rs : List Response) (w : Watch) (n : ℕ)
    → wait_next last rs w ≡ some n
    → (last < n) × (n ≤ (respond_all rs w).revision)
unfolding wait_next respond_all
wait_next-bounds last [] w n h = ground arith
wait_next-bounds last (r ∷ rs) w n h =
    let rises = respond_all_mono rs (respond r w) in
    let rise = respond_mono r w in
    elim (Bool-cases (ltb last w.revision)) [
      | inl now ↦ ground arith
      | inr wait ↦ wait_next-bounds last rs (respond r w) n (rw wait at h)
    ]

-- `WaitNext` does send a revision if the watch comes beyond the last one.
pub wait_next_wakes :
    (last : ℕ) (rs : List Response) (w : Watch)
    → last < (respond_all rs w).revision
    → (n : ℕ) × (wait_next last rs w ≡ some n)
unfolding wait_next respond_all
wait_next_wakes last [] w h = (w.revision, ground arith)
wait_next_wakes last (r ∷ rs) w h = elim (Bool-cases (ltb last w.revision)) [
  | inl now ↦ (w.revision, rw now refl)
  | inr wait ↦ rw wait (wait_next_wakes last rs (respond r w) h)
]
