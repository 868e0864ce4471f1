-- ===== src/Master/Window.antt =====
-- Which shares the window of pplns.go selects.
use go_pool.Base.{
  ℕ, ◌+◌, ◌%◌, ◌^◌, ◌≤◌, ◌<◌, ◌≡◌, ◌⊎◌, inl, inr, refl, sym, ap, ◌∙◌, subst, true, false, List, [],
  ◌∷◌, ◌++◌, leb, Bool-cases, arith, append_assoc, append-nil, All, drop,
}
use go_pool.Ledger.Store.{Share}
use go_pool.Ledger.Shares.{place, newest_first}
use go_pool.Ledger.Shares.Window.{
  NoneNewer, IsNewestFirst, IsNewestFirst-append, newest_first-IsNewestFirst,
}
use go_pool.Master.Credit.{total_diff, total_diff-append}
use go_pool.Master.Pplns.{pplns_loop, pplns_shares}
use mathlib.Core.List.{reverse, reverse-append, reverse-cons, reverse-reverse}

leb→le : (a b : ℕ) → leb a b ≡ true → a ≤ b
leb→le a b h = ground arith

leb→lt : (a b : ℕ) → leb a b ≡ false → b < a
leb→lt a b h = ground arith

reverse_cons : (x : Share) (xs acc : List Share) → reverse (x ∷ xs) ++ acc ≡ reverse xs ++ (x ∷ acc)
reverse_cons x xs acc =
    ap (λ l. l ++ acc) (reverse-cons x xs) ∙ append_assoc (reverse xs) (x ∷ []) acc

total_diff-reverse : (xs : List Share) → total_diff (reverse xs) ≡ total_diff xs
total_diff-reverse [] = refl
total_diff-reverse (x ∷ xs) =
    ap total_diff (reverse-cons x xs)
    ∙ omega (arith, total_diff-append (reverse xs) (x ∷ []), total_diff-reverse xs)

pub total_diff-place :
    (x : Share) (ys : List Share) → total_diff (place x ys) ≡ x.difficulty + total_diff ys
unfolding place
total_diff-place x [] = refl
total_diff-place x (y ∷ ys) = elim (Bool-cases (leb y.timestamp x.timestamp)) [
  | inl in_front ↦ rw in_front refl
  | inr behind ↦ rw behind (omega (arith, total_diff-place x ys))
]

pub total_diff-newest_first : (xs : List Share) → total_diff (newest_first xs) ≡ total_diff xs
unfolding newest_first
total_diff-newest_first [] = refl
total_diff-newest_first (x ∷ xs) =
    omega (arith, total_diff-place x (newest_first xs), total_diff-newest_first xs)

-- The loop takes a front part of its list and puts it, turned round, before the shares so far; it
-- stops at the first share with which the window is reached.
pplns_loop_taken :
    (window : ℕ) (xs : List Share) (total : ℕ) (acc : List Share)
    → total ≡ total_diff acc
    → total < window
    → total + total_diff xs < 2 ^ 64
    → (taken rest : List Share) × (xs ≡ taken ++ rest)
      × (pplns_loop window xs total acc ≡ reverse taken ++ acc)
      × ((window ≤ total_diff (pplns_loop window xs total acc)) ⊎ (rest ≡ []))
      × (total_diff (drop 1 (pplns_loop window xs total acc)) < window)
unfolding pplns_loop
pplns_loop_taken window [] total [] e l h = ([], [], refl, refl, inr refl, omega arith)
pplns_loop_taken window [] total (y ∷ acc) e l h = ([], [], refl, refl, inr refl, omega arith)
pplns_loop_taken window (x ∷ xs) total acc e l h =
    let fits : (total + x.difficulty) % 2 ^ 64 ≡ total + x.difficulty = omega arith in
    elim (Bool-cases (leb window (total + x.difficulty))) [
      | inl reached ↦
          rw (fits, reached)
            (
              x ∷ [],
              xs,
              refl,
              refl,
              inl (omega (arith, leb→le window (total + x.difficulty) reached)),
              omega arith,
            )
      | inr short ↦
          let (taken, rest, split, runs, enough, least) =
            pplns_loop_taken window xs (total + x.difficulty) (x ∷ acc) (omega arith)
              (leb→lt window (total + x.difficulty) short) (omega arith) in
          rw (fits, short)
            (
              x ∷ taken,
              rest,
              ap (λ l. x ∷ l) split,
              runs ∙ sym (reverse_cons x taken acc),
              enough,
              least,
            )
    ]

-- The window takes the back part of the answer of `GetSharesInWindow`, which has the newest share
-- first: a part with the difficulty of the window, or everything, that is below the window without
-- its first share. No share that it pays is newer than one that it leaves out. The window is not 0,
-- and all difficulty is below 2^64.
pub pplns_shares_oldest :
    (window : ℕ) (recorded : List Share)
    → 0 < window
    → total_diff recorded < 2 ^ 64
    → (left paid : List Share) × (newest_first recorded ≡ left ++ paid)
      × (pplns_shares window (newest_first recorded) ≡ paid)
      × ((window ≤ total_diff paid) ⊎ (left ≡ []))
      × (total_diff (drop 1 paid) < window)
      × All (λ x. NoneNewer x paid) left
unfolding pplns_shares
pplns_shares_oldest window recorded h k =
    let all : List Share = newest_first recorded in
    let (taken, rest, split, runs, enough, least) =
      pplns_loop_taken window (reverse all) 0 [] refl h
        (omega (arith, total_diff-reverse all, total_diff-newest_first recorded)) in
    let paid : List Share = pplns_shares window all in
    let is_paid : paid ≡ reverse taken = runs ∙ append-nil (reverse taken) in
    let parts : all ≡ reverse rest ++ paid =
      sym (reverse-reverse all)
      ∙ ap reverse split
      ∙ reverse-append taken rest
      ∙ ap (λ l. reverse rest ++ l) (sym is_paid) in
    (
      reverse rest,
      paid,
      parts,
      refl,
      elim enough [ inl e ↦ inl e | inr e ↦ inr (ap reverse e) ],
      least,
      IsNewestFirst-append (reverse rest) paid
          (subst IsNewestFirst parts (newest_first-IsNewestFirst recorded)),
    )
