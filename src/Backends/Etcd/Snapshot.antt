-- ===== src/Backends/Etcd/Snapshot.antt =====
-- `GetValues` of etcd reads one revision, however many transactions it takes.
use mathlib.Core.Path.{subst}
use confd.Prelude.{
  ℕ, zero, suc, ◌<◌, ◌≡◌, refl, sym, ap, ◌∙◌, List, [], ◌∷◌, ◌++◌, map, leb, ◌==◌, length,
  if◌then◌else◌, arith, Bool-cases, ◌⊎◌, inl, inr, append-nil, append_assoc,
}
use confd.Std.Text.{Text}
use confd.Std.Dict.{Dict}
use confd.Std.Result.{Result, ok, err, ◌>>=◌}
use confd.Backends.Etcd.{
  Pairs, TxnResult, Txn, max_txn_ops, take_pairs, take_responses, Reading, finish_txn, do_txn,
  flush, read_keys, nothing_read, get_values,
}

-- A server whose data have revisions: `at r key` is what a prefix get of the key finds at
-- revision `r`, and `head n` is the latest revision when transaction `n` is served.
pub record Server : Type 0 where
  pub at : ℕ → Text → Pairs
  pub head : ℕ → ℕ

-- The revision that a transaction reads.
abbrev pub read_rev : ℕ → ℕ → ℕ
read_rev latest zero = latest
read_rev latest (suc r) = suc r

-- The client answers each transaction from the data at one revision: the latest for revision 0,
-- which is never 0 itself, or the one that is asked for.
pub record Serves (server : Server) (txn : Txn) : Type 0 where
  pub head_pos : (n : ℕ) → 0 < server.head n
  pub answers :
      (n : ℕ) (ops : List Text) (rev : ℕ)
      → txn n ops rev
        ≡ ok (record {
          revision = server.head n;
          responses = map (server.at (read_rev (server.head n) rev)) ops;
        })

-- All the keys read at one revision, with no transactions.
abbrev pub read_at : Server → ℕ → List Text → Dict Text → Dict Text
read_at server rev [] vars = vars
read_at server rev (key ∷ keys) vars =
    read_at server rev keys (take_pairs key (server.at rev key) vars)

module _ (server : Server) (txn : Txn) (serves : Serves server txn) where
  take_responses-map :
      (rev : ℕ) (ops : List Text) (vars : Dict Text)
      → take_responses ops (map (server.at rev) ops) vars ≡ read_at server rev ops vars
  unfolding take_responses
  take_responses-map rev [] vars = refl
  take_responses-map rev (key ∷ ops) vars = take_responses-map rev ops _

  -- After the first transaction the revision is fixed; before it nothing was read.
  abbrev Fixed : Reading → Type 0
  Fixed r = (r.first_rev ≡ server.head 0) ⊎ ((r.first_rev ≡ 0) × (r.sent ≡ 0))

  read_rev-pos : (latest rev : ℕ) → 0 < rev → read_rev latest rev ≡ rev
  read_rev-pos latest zero h = elim h [ ]
  read_rev-pos latest (suc r) h = refl

  read_rev-Fixed :
      (r : Reading) → Fixed r → read_rev (server.head r.sent) r.first_rev ≡ server.head 0
  read_rev-Fixed r (inl e) =
      ap (read_rev (server.head r.sent)) e ∙ read_rev-pos _ (server.head 0) (serves.head_pos 0)
  read_rev-Fixed r (inr (z, n)) = ap (read_rev (server.head r.sent)) z ∙ ap server.head n

  kept_rev :
      (r : Reading)
      → Fixed r
      → (if r.first_rev == 0 then server.head r.sent else r.first_rev) ≡ server.head 0
  kept_rev r (inl e) = let h = serves.head_pos 0 in ground arith
  kept_rev r (inr (z, n)) = simp z (ap server.head n)

  do_txn-Fixed :
      (ops : List Text) (r : Reading)
      → Fixed r
      → (r' : Reading) × (do_txn txn ops r ≡ ok r')
        × (r'.first_rev ≡ server.head 0)
        × (r'.vars ≡ read_at server (server.head 0) ops r.vars)
  unfolding do_txn finish_txn
  do_txn-Fixed ops r h = (
    _,
    ap (λ (a : Result TxnResult). a >>= λ result. ok (finish_txn r ops result))
        (serves.answers r.sent ops r.first_rev),
    kept_rev r h,
    ap (λ (rev : ℕ). take_responses ops (map (server.at rev) ops) r.vars) (read_rev-Fixed r h)
        ∙ take_responses-map (server.head 0) ops r.vars,
  )

  read_at-append :
      (rev : ℕ) (xs ys : List Text) (vars : Dict Text)
      → read_at server rev (xs ++ ys) vars ≡ read_at server rev ys (read_at server rev xs vars)
  read_at-append rev [] ys vars = refl
  read_at-append rev (x ∷ xs) ys vars = read_at-append rev xs ys _

  abbrev Snapshot : List Text → Reading → Result Reading → Type 0
  Snapshot keys r (ok r') = r'.vars ≡ read_at server (server.head 0) keys r.vars
  Snapshot keys r (err e) = ⊥

  flush-Snapshot : (ops : List Text) (r : Reading) → Fixed r → Snapshot ops r (flush txn ops r)
  unfolding flush
  flush-Snapshot [] r h = refl
  flush-Snapshot (op ∷ ops) r h = let (r', e, _, v) = do_txn-Fixed (op ∷ ops) r h in rw e v

  Snapshot-after :
      (xs keys : List Text) (r r' : Reading)
      → r'.vars ≡ read_at server (server.head 0) xs r.vars
      → (out : Result Reading) → Snapshot keys r' out
      → Snapshot (xs ++ keys) r out
  Snapshot-after xs keys r r' v (ok last) h =
      h
      ∙ ap (read_at server (server.head 0) keys) v
      ∙ sym (read_at-append (server.head 0) xs keys r.vars)
  Snapshot-after xs keys r r' v (err e) h = h

  read_keys-Snapshot :
      (keys ops : List Text) (r : Reading)
      → Fixed r
      → Snapshot (ops ++ keys) r (read_keys txn keys ops r)
  unfolding read_keys
  read_keys-Snapshot [] ops r h = rw append-nil (flush-Snapshot ops r h)
  read_keys-Snapshot (key ∷ keys) ops r h =
      elim (Bool-cases (leb max_txn_ops (length (ops ++ key ∷ [])))) [
        | inl full ↦
            let (r', e, f, v) = do_txn-Fixed (ops ++ key ∷ []) r h in
            rw (full, e)
              (subst (λ (l : List Text). Snapshot l r (read_keys txn keys [] r'))
                (append_assoc ops (key ∷ []) keys)
                (Snapshot-after (ops ++ key ∷ []) keys r r' v (read_keys txn keys [] r')
                  (read_keys-Snapshot keys [] r' (inl f))))
        | inr more ↦ rw more (
            subst (λ (l : List Text). Snapshot l r (read_keys txn keys (ops ++ key ∷ []) r))
              (append_assoc ops (key ∷ []) keys) (read_keys-Snapshot keys (ops ++ key ∷ []) r h))
      ]

  -- Where the server answers each transaction, `GetValues` returns what it would find by reading
  -- all keys at the one revision that was the latest when its first transaction was served. So
  -- the split into transactions of 128 gets, and what is written meanwhile, make no difference.
  pub get_values-Snapshot :
      (keys : List Text) → get_values txn keys ≡ ok (read_at server (server.head 0) keys [])
  unfolding get_values
  get_values-Snapshot keys =
      go (read_keys txn keys [] nothing_read)
        (read_keys-Snapshot keys [] nothing_read (inr (refl, refl)))
    where
      go :
          (out : Result Reading)
          → Snapshot keys nothing_read out
          → (out >>= λ r. ok r.vars) ≡ ok (read_at server (server.head 0) keys [])
      go (ok r) h = ap ok h
      go (err e) h = absurd h
