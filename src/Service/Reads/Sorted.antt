-- ===== src/Service/Reads/Sorted.antt =====
-- The sort of GetMembers: by rank, and nothing lost or made up.
use mathlib.Core.List.{Permᴰ}
use mathlib.Core.List.Permᴰ
use go_leaderboard.Base.{refl, arith, List, [], ◌∷◌, Bool-cases, inl, inr}
use go_leaderboard.Base.Int.{ℤ, ltb_ℤ, ◌≤ℤ◌}
use go_leaderboard.Service.Defs.{Member}
use go_leaderboard.Service.Reads.{insert_by_rank, sort_by_rank}

pub FromRank : ℤ → List Member → Type 0
FromRank r [] = Unit {0}
FromRank r (m ∷ ms) = (r ≤ℤ m.rank) × FromRank r ms

-- Every rank is at most each that follows.
pub ByRank : List Member → Type 0
ByRank [] = Unit {0}
ByRank (m ∷ ms) = FromRank m.rank ms × ByRank ms

FromRank-le : (r q : ℤ) (ms : List Member) → r ≤ℤ q → FromRank q ms → FromRank r ms
unfolding FromRank
FromRank-le r q [] h f = tt
FromRank-le r q (m ∷ ms) h (p, f) = (omega arith, FromRank-le r q ms h f)

FromRank-insert :
    (r : ℤ) (m : Member) (ms : List Member)
    → r ≤ℤ m.rank
    → FromRank r ms
    → FromRank r (insert_by_rank m ms)
unfolding FromRank insert_by_rank
FromRank-insert r m [] h f = (h, tt)
FromRank-insert r m (n ∷ ns) h (p, f) = elim (Bool-cases (ltb_ℤ n.rank m.rank)) [
  | inl e ↦ rw (e, insert_by_rank) (p, FromRank-insert r m ns h f)
  | inr e ↦ rw (e, insert_by_rank) (h, (p, f))
]

insert_by_rank-ByRank : (m : Member) (ms : List Member) → ByRank ms → ByRank (insert_by_rank m ms)
unfolding ByRank FromRank insert_by_rank
insert_by_rank-ByRank m [] s = (tt, tt)
insert_by_rank-ByRank m (n ∷ ns) (f, s) = elim (Bool-cases (ltb_ℤ n.rank m.rank)) [
  | inl e ↦
      rw (e, insert_by_rank)
        (FromRank-insert n.rank m ns (ground arith) f, insert_by_rank-ByRank m ns s)
  | inr e ↦
      rw (e, insert_by_rank) ((ground arith, FromRank-le m.rank n.rank ns (ground arith) f), (f, s))
]

insert_by_rank-perm : (m : Member) (ms : List Member) → Permᴰ (insert_by_rank m ms) (m ∷ ms)
unfolding insert_by_rank
insert_by_rank-perm m [] = Permᴰ.refl (m ∷ [])
insert_by_rank-perm m (n ∷ ns) = elim (Bool-cases (ltb_ℤ n.rank m.rank)) [
  | inl e ↦
      rw (e, insert_by_rank)
        (Permᴰ.trans (Permᴰ.cons refl (insert_by_rank-perm m ns)) (Permᴰ.swap refl refl))
  | inr e ↦ rw (e, insert_by_rank) (Permᴰ.refl (m ∷ n ∷ ns))
]

pub sort_by_rank-ByRank : (ms : List Member) → ByRank (sort_by_rank ms)
unfolding sort_by_rank ByRank
sort_by_rank-ByRank [] = tt
sort_by_rank-ByRank (m ∷ ms) = insert_by_rank-ByRank m (sort_by_rank ms) (sort_by_rank-ByRank ms)

pub sort_by_rank-perm : (ms : List Member) → Permᴰ (sort_by_rank ms) ms
unfolding sort_by_rank
sort_by_rank-perm [] = Permᴰ.nil
sort_by_rank-perm (m ∷ ms) =
    Permᴰ.trans (insert_by_rank-perm m (sort_by_rank ms)) (Permᴰ.cons refl (sort_by_rank-perm ms))
