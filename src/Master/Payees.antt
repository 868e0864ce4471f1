-- ===== src/Master/Payees.antt =====
-- cmd/master/withdraw.go: the payments of one recipient in the map that `Withdraw` groups them in.
use go_pool.Base.{
  ◌≡◌, refl, sym, ap, ◌∙◌, List, [], ◌∷◌, ◌++◌, Option, none, some, if◌then◌else◌, Bool-cases, inl,
  inr, append_assoc, append-nil,
}
use go_pool.Base.Bytes.{Bytes, bytes_eq, bytes_eq_iff}
use go_pool.Base.Assoc.{Assoc, lookup, insert, lookup-insert, IsMap, IsMap-insert, bytes_keys}
use go_pool.Ledger.Store.{Payment}
use go_pool.Master.Withdraw.{or_nil, group_payments}

-- The payments to a recipient.
abbrev pub payments_to : Bytes → List Payment → List Payment
payments_to addr [] = []
payments_to addr (p ∷ ps) =
    let rest = payments_to addr ps in if bytes_eq p.recipient_addr addr then p ∷ rest else rest

-- The entry of the map for a list.
abbrev pub entry : List Payment → Option (List Payment)
entry [] = none
entry (p ∷ ps) = some (p ∷ ps)

or_nil-entry : (ps : List Payment) → or_nil (entry ps) ≡ ps
or_nil-entry [] = refl
or_nil-entry (p ∷ ps) = refl

entry_snoc : (ps : List Payment) (p : Payment) → entry (ps ++ (p ∷ [])) ≡ some (ps ++ (p ∷ []))
entry_snoc [] p = refl
entry_snoc (q ∷ ps) p = refl

pub lookup-group_payments :
    (addr : Bytes) (ps qs : List Payment) (m : Assoc Bytes (List Payment))
    → lookup addr m ≡ entry qs
    → lookup addr (group_payments ps m) ≡ entry (qs ++ payments_to addr ps)
unfolding group_payments
lookup-group_payments addr [] qs m h = h ∙ ap entry (sym (append-nil qs))
lookup-group_payments addr (p ∷ ps) qs m h =
    let old : List Payment = or_nil (lookup p.recipient_addr m) in
    let m' : Assoc Bytes (List Payment) = insert p.recipient_addr (old ++ (p ∷ [])) m in
    let there : lookup addr m'
        ≡ (if bytes_eq p.recipient_addr addr then some (old ++ (p ∷ [])) else lookup addr m) =
      lookup-insert addr p.recipient_addr (old ++ (p ∷ [])) m in
    elim (Bool-cases (bytes_eq p.recipient_addr addr)) [
      | inl own ↦ rw own (
          lookup-group_payments addr ps (qs ++ (p ∷ [])) m'
            (there ∙ rw own (grown ((bytes_eq_iff p.recipient_addr addr).0 own)))
          ∙ ap entry (append_assoc qs (p ∷ []) (payments_to addr ps)))
      | inr other ↦ rw other (lookup-group_payments addr ps qs m' (there ∙ rw other h))
    ]
  where
    grown :
        p.recipient_addr ≡ addr
        → some (or_nil (lookup p.recipient_addr m) ++ (p ∷ [])) ≡ entry (qs ++ (p ∷ []))
    grown same =
        ap (λ l. some (l ++ (p ∷ [])))
          (ap (λ k. or_nil (lookup k m)) same ∙ ap or_nil h ∙ or_nil-entry qs)
        ∙ sym (entry_snoc qs p)

pub IsMap-group_payments :
    (ps : List Payment) (m : Assoc Bytes (List Payment)) → IsMap m → IsMap (group_payments ps m)
unfolding group_payments
IsMap-group_payments [] m h = h
IsMap-group_payments (p ∷ ps) m h =
    let group : List Payment = or_nil (lookup p.recipient_addr m) ++ (p ∷ []) in
    IsMap-group_payments ps (insert p.recipient_addr group m)
      (IsMap-insert p.recipient_addr group m h)
