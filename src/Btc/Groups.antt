-- ===== src/Btc/Groups.antt =====
-- The grouping of out points by their transaction loses none and repeats none.
use rgbpp_indexer.Common.{
  ℕ, ◌≡◌, refl, sym, ap, ◌∙◌, subst, ◌↔◌, ◌⊎◌, inl, inr, false, Bool-cases, List, [], ◌∷◌, ◌++◌,
  map, number_set, number_set-Occurs, number_set-Distinct, Distinct, Distinct-append, Distinct-map,
  Occurs, Occurs-map, Occurs-map_inv, Occurs-append, ap₂,
}
use rgbpp_indexer.Types.Error.{Result}
use rgbpp_indexer.Types.Bitcoin.{BtcTxid, BtcOutPoint, txid_eq, txid_eq_iff}
use rgbpp_indexer.Types.State.{OutpointSpendStatus}
use rgbpp_indexer.Btc.{out_point_of, group_point, by_txid}

abbrev pub Answer : Type 0
Answer = BtcOutPoint × Result OutpointSpendStatus

-- The out points of the groups.
abbrev pub points : List (BtcTxid × List ℕ) → List BtcOutPoint
points [] = []
points ((txid, vouts) ∷ groups) = map (out_point_of txid) (number_set vouts) ++ points groups

abbrev keys : List (BtcTxid × List ℕ) → List BtcTxid
keys [] = []
keys ((txid, vouts) ∷ groups) = txid ∷ keys groups

pub map-map :
    {A B C : Type 0} (f : B → C) (g : A → B) (xs : List A)
    → map f (map g xs) ≡ map (λ x. f (g x)) xs
map-map f g [] = refl
map-map f g (x ∷ xs) = ap (◌∷◌ (f (g x))) (map-map f g xs)

pub map-append :
    {A B : Type 0} (f : A → B) (xs ys : List A) → map f (xs ++ ys) ≡ map f xs ++ map f ys
map-append f [] ys = refl
map-append f (x ∷ xs) ys = ap (◌∷◌ (f x)) (map-append f xs ys)

group_point-cases :
    (txid t : BtcTxid) (vout : ℕ) (vouts : List ℕ) (groups : List (BtcTxid × List ℕ))
    → ((txid ≡ t)
        × (group_point txid vout ((t, vouts) ∷ groups) ≡ (t, vouts ++ (vout ∷ [])) ∷ groups))
      ⊎ ((txid_eq txid t ≡ false)
          × (group_point txid vout ((t, vouts) ∷ groups)
              ≡ (t, vouts) ∷ group_point txid vout groups))
unfolding group_point
group_point-cases txid t vout vouts groups = elim (Bool-cases (txid_eq txid t)) [
  | inl e ↦ inl ((txid_eq_iff txid t).0 e, rw e refl)
  | inr e ↦ inr (e, rw e refl)
]

group_point-keys :
    (txid x : BtcTxid) (vout : ℕ) (groups : List (BtcTxid × List ℕ))
    → Occurs x (keys (group_point txid vout groups))
    → (x ≡ txid) ⊎ Occurs x (keys groups)
unfolding group_point
group_point-keys txid x vout [] o = elim o [ inl e ↦ inl e | inr a ↦ inr a ]
group_point-keys txid x vout ((t, vouts) ∷ groups) o =
    elim (group_point-cases txid t vout vouts groups) [
      | inl (_, q) ↦ inr (subst (λ g. Occurs x (keys g)) q o)
      | inr (_, q) ↦ elim (subst (λ g. Occurs x (keys g)) q o) [
        | inl e ↦ inr (inl e)
        | inr a ↦ elim (group_point-keys txid x vout groups a) [
          | inl e ↦ inl e
          | inr b ↦ inr (inr b)
        ]
      ]
    ]

group_point-Distinct :
    (txid : BtcTxid) (vout : ℕ) (groups : List (BtcTxid × List ℕ))
    → Distinct (keys groups)
    → Distinct (keys (group_point txid vout groups))
unfolding group_point
group_point-Distinct txid vout [] h = (λ o. absurd o, tt)
group_point-Distinct txid vout ((t, vouts) ∷ groups) h =
    elim (group_point-cases txid t vout vouts groups) [
      | inl (_, q) ↦ subst (λ g. Distinct (keys g)) (sym q) h
      | inr (e, q) ↦
          subst (λ g. Distinct (keys g)) (sym q)
            (
              λ o. elim (group_point-keys txid t vout groups o) [
                | inl same ↦ absurd (let k = sym ((txid_eq_iff txid t).1 (sym same)) ∙ e in cc)
                | inr a ↦ h.0 a
              ],
              group_point-Distinct txid vout groups h.1,
            )
    ]

-- The out points of a group.
group_Occurs :
    (o : BtcOutPoint) (txid : BtcTxid) (vouts : List ℕ)
    → Occurs o (map (out_point_of txid) (number_set vouts))
      ↔ ((o.txid ≡ txid) × Occurs o.vout vouts)
group_Occurs o txid vouts = (
  λ h.
      let (v, a, e) = Occurs-map_inv (out_point_of txid) o (number_set vouts) h in
      (
        ap (λ (p : BtcOutPoint). p.txid) e,
        subst (λ v. Occurs v vouts) (sym (ap (λ (p : BtcOutPoint). p.vout) e))
            ((number_set-Occurs v vouts).0 a),
      ),
  λ (e, a).
      subst (λ t. Occurs o (map (out_point_of t) (number_set vouts))) e
        (Occurs-map (out_point_of o.txid) o.vout (number_set vouts)
          ((number_set-Occurs o.vout vouts).1 a)),
)

abbrev InGroups : BtcOutPoint → List (BtcTxid × List ℕ) → Type 0
InGroups o [] = ⊥
InGroups o ((txid, vouts) ∷ groups) = ((o.txid ≡ txid) × Occurs o.vout vouts) ⊎ InGroups o groups

pub points-InGroups :
    (o : BtcOutPoint) (groups : List (BtcTxid × List ℕ))
    → Occurs o (points groups) ↔ InGroups o groups
points-InGroups o [] = (λ h. h, λ h. h)
points-InGroups o ((txid, vouts) ∷ groups) =
    let (split, join) =
      Occurs-append o (map (out_point_of txid) (number_set vouts)) (points groups) in
    let (d, u) = group_Occurs o txid vouts in
    let (down, up) = points-InGroups o groups in
    (
      λ h. elim (split h) [ inl a ↦ inl (d a) | inr b ↦ inr (down b) ],
      λ h. join (elim h [ inl a ↦ inl (u a) | inr b ↦ inr (up b) ]),
    )

group_point-InGroups :
    (o : BtcOutPoint) (txid : BtcTxid) (vout : ℕ) (groups : List (BtcTxid × List ℕ))
    → InGroups o (group_point txid vout groups)
      ↔ (((o.txid ≡ txid) × (o.vout ≡ vout)) ⊎ InGroups o groups)
unfolding group_point
group_point-InGroups o txid vout [] = (
  λ h. elim h [ inl (e, a) ↦ elim a [ inl v ↦ inl (e, v) | inr z ↦ absurd z ] | inr z ↦ absurd z ],
  λ h. elim h [ inl (e, v) ↦ inl (e, inl v) | inr z ↦ absurd z ],
)
group_point-InGroups o txid vout ((t, vouts) ∷ groups) =
    elim (group_point-cases txid t vout vouts groups) [
      | inl (same, q) ↦ (
        λ h. elim (subst (InGroups o) q h) [
          | inl (e, a) ↦ elim ((Occurs-append o.vout vouts (vout ∷ [])).0 a) [
            | inl b ↦ inr (inl (e, b))
            | inr b ↦ elim b [ inl v ↦ inl (e ∙ sym same, v) | inr z ↦ absurd z ]
          ]
          | inr b ↦ inr (inr b)
        ],
        λ h. subst (InGroups o) (sym q) (elim h [
          | inl (e, v) ↦ inl (e ∙ same, (Occurs-append o.vout vouts (vout ∷ [])).1 (inr (inl v)))
          | inr g ↦ elim g [
            | inl (e, b) ↦ inl (e, (Occurs-append o.vout vouts (vout ∷ [])).1 (inl b))
            | inr b ↦ inr b
          ]
        ]),
      )
      | inr (_, q) ↦
          let (down, up) = group_point-InGroups o txid vout groups in
          (
            λ h. elim (subst (InGroups o) q h) [
              | inl a ↦ inr (inl a)
              | inr b ↦ elim (down b) [ inl a ↦ inl a | inr c ↦ inr (inr c) ]
            ],
            λ h. subst (InGroups o) (sym q) (elim h [
              | inl a ↦ inr (up (inl a))
              | inr g ↦ elim g [ inl a ↦ inl a | inr b ↦ inr (up (inr b)) ]
            ]),
          )
    ]

pub by_txid-InGroups :
    (o : BtcOutPoint) (os : List BtcOutPoint) (groups : List (BtcTxid × List ℕ))
    → InGroups o (by_txid os groups) ↔ (Occurs o os ⊎ InGroups o groups)
unfolding by_txid
by_txid-InGroups o [] groups = (λ h. inr h, λ h. elim h [ inl z ↦ absurd z | inr g ↦ g ])
by_txid-InGroups o (p ∷ os) groups =
    let (down, up) = by_txid-InGroups o os (group_point p.txid p.vout groups) in
    let (d, u) = group_point-InGroups o p.txid p.vout groups in
    (
      λ h. elim (down h) [
        | inl a ↦ inl (inr a)
        | inr b ↦ elim (d b) [ inl (e, v) ↦ inl (inl (ap₂ out_point_of e v)) | inr g ↦ inr g ]
      ],
      λ h. up (elim h [
        | inl a ↦ elim a [
          | inl e ↦
              inr (u (inl (ap (λ (p : BtcOutPoint). p.txid) e, ap (λ (p : BtcOutPoint). p.vout) e)))
          | inr b ↦ inl b
        ]
        | inr g ↦ inr (u (inr g))
      ]),
    )

pub by_txid-Distinct :
    (os : List BtcOutPoint) (groups : List (BtcTxid × List ℕ))
    → Distinct (keys groups)
    → Distinct (keys (by_txid os groups))
unfolding by_txid
by_txid-Distinct [] groups h = h
by_txid-Distinct (o ∷ os) groups h =
    by_txid-Distinct os (group_point o.txid o.vout groups)
      (group_point-Distinct o.txid o.vout groups h)

InGroups-keys :
    (o : BtcOutPoint) (groups : List (BtcTxid × List ℕ))
    → InGroups o groups
    → Occurs o.txid (keys groups)
InGroups-keys o [] h = h
InGroups-keys o ((t, vouts) ∷ groups) (inl (e, a)) = inl e
InGroups-keys o ((t, vouts) ∷ groups) (inr g) = inr (InGroups-keys o groups g)

pub points-Distinct :
    (groups : List (BtcTxid × List ℕ)) → Distinct (keys groups) → Distinct (points groups)
points-Distinct [] h = tt
points-Distinct ((t, vouts) ∷ groups) h =
    Distinct-append (map (out_point_of t) (number_set vouts)) (points groups)
      (Distinct-map (out_point_of t) (λ a b e. ap (λ (p : BtcOutPoint). p.vout) e)
        (number_set vouts) (number_set-Distinct vouts))
      (points-Distinct groups h.1)
      (λ o a b. h.0 (
        subst (λ t. Occurs t (keys groups)) ((group_Occurs o t vouts).0 a).0
          (InGroups-keys o groups ((points-InGroups o groups).0 b))))
