-- ===== src/Serializer/Reads.antt =====
-- A chain of reads on one Deserializer, as the `Deserialize` methods and the packet handler write it.
use go_pool.Base.{◌≡◌, ◌∙◌, ap, Outcome, ok, panic, bind}
use go_pool.Serializer.{Deserializer}

abbrev pub Read {ℓ} : Type ℓ → Type ℓ
Read A = Deserializer → Outcome (A × Deserializer)

-- A read that cannot panic.
abbrev pub plain {ℓ} : {A : Type ℓ} → (Deserializer → A × Deserializer) → Read A
plain r d = ok (r d)

abbrev pub pure {ℓ} : {A : Type ℓ} → A → Read A
pure a d = ok (a, d)

infixl 5 ◌>>=◌ ◌>>◌
unfoldable pub ◌>>=◌ {ℓ κ} : {A : Type ℓ} {B : Type κ} → Read A → (A → Read B) → Read B
◌>>=◌ m f d = bind (m d) (λ r. f r.0 r.1)

unfoldable pub ◌>>◌ {ℓ κ} : {A : Type ℓ} {B : Type κ} → Read A → Read B → Read B
unfolding ◌>>=◌
m >> k = m >>= λ _. k

-- One step of a chain whose first read is known.
pub >>=-ok {ℓ κ} :
    {A : Type ℓ} {B : Type κ} (m : Read A) (f : A → Read B) {d d' : Deserializer} {a : A}
    {r : Outcome (B × Deserializer)}
    → m d ≡ ok (a, d')
    → f a d' ≡ r
    → (m >>= f) d ≡ r
unfolding ◌>>=◌
>>=-ok m f e k = ap (λ x. bind x (λ r. f r.0 r.1)) e ∙ k

pub >>-ok {ℓ κ} :
    {A : Type ℓ} {B : Type κ} (m : Read A) (n : Read B) {d d' : Deserializer} {a : A}
    {r : Outcome (B × Deserializer)}
    → m d ≡ ok (a, d')
    → n d' ≡ r
    → (m >> n) d ≡ r
unfolding ◌>>◌
>>-ok m n e k = ap (λ x. bind x (λ r. n r.1)) e ∙ k

-- A panic ends the chain.
pub >>=-panic {ℓ κ} :
    {A : Type ℓ} {B : Type κ} (m : Read A) (f : A → Read B) {d : Deserializer}
    → m d ≡ panic
    → (m >>= f) d ≡ panic
unfolding ◌>>=◌
>>=-panic m f e = ap (λ x. bind x (λ r. f r.0 r.1)) e
