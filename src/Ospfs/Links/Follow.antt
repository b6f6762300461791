-- ===== src/Ospfs/Links/Follow.antt =====
-- `ospfs_follow_link` of lab3/ospfsmod.c: the path that each user gets, and what root leaves behind.
use cs111_operating_system.Prelude.{
  ℕ, zero, suc, ◌+◌, ◌<◌, ◌≤◌, ◌≡◌, ◌≢◌, refl, sym, ap, ◌∙◌, arith, none, some, List, [], ◌∷◌, true,
  ◌++◌, length, ◌==◌, ==-eq_false,
}
use cs111_operating_system.Ospfs.Layout.{Disk}
use cs111_operating_system.Ospfs.Bytes.{load, store, same_bytes, load-store_self, load-store_ne}
use cs111_operating_system.Ospfs.Dir.{oi_symlink}
use cs111_operating_system.Ospfs.Links.{
  root_prefix, question_mark, colon, str_chr, link_at, dangling, oops, next_to, ospfs_follow_link,
}

==-eq_true : (a b : ℕ) → a ≡ b → (a == b) ≡ true
==-eq_true a b e = ground arith

-- The string at `a`, with its null character, is `s`.
unfoldable pub IsString : Disk → (a : ℕ) → List ℕ → Type 0
IsString m a [] = load m a ≡ 0
IsString m a (c ∷ cs) = (load m a ≡ c) × IsString m (a + 1) cs

-- Characters other than `c` and the null character.
unfoldable pub Without : (c : ℕ) → List ℕ → Type 0
Without c [] = Unit
Without c (x ∷ xs) = ((x ≢ c) × (x ≢ 0)) × Without c xs

IsString-suffix :
    (m : Disk) (p q : List ℕ) (a : ℕ) → IsString m a (p ++ q) → IsString m (a + length p) q
unfolding IsString
IsString-suffix m [] q a s = let e : a + 0 ≡ a = omega arith in rw e s
IsString-suffix m (x ∷ p) q a s =
    let e : a + 1 + length p ≡ a + suc (length p) = omega arith in
    rw e at (IsString-suffix m p q (a + 1) s.1)

IsString-same :
    (m m' : Disk) (s : List ℕ) (a : ℕ)
    → ((b : ℕ) → a ≤ b → b ≤ a + length s → load m' b ≡ load m b)
    → IsString m a s
    → IsString m' a s
unfolding IsString
IsString-same m m' [] a same s = same a (omega arith) (omega arith) ∙ s
IsString-same m m' (c ∷ cs) a same s = (
  same a (omega arith) (omega arith) ∙ s.0,
  IsString-same m m' cs (a + 1) (λ b lo hi. same b (omega arith) (omega arith)) s.1,
)

-- A null character written into a string cuts it.
IsString-cut :
    (m : Disk) (p q : List ℕ) (a b : ℕ)
    → b ≡ a + length p
    → IsString m a (p ++ q)
    → IsString (store m b 0) a p
unfolding IsString
IsString-cut m [] q a b e s = let here : b ≡ a = omega arith in rw here (load-store_self m a 0)
IsString-cut m (x ∷ p) q a b e s =
    (load-store_ne m b a 0 (omega arith) ∙ s.0, IsString-cut m p q (a + 1) b (omega arith) s.1)

str_chr-found :
    (m : Disk) (c : ℕ) (p q : List ℕ) (f a : ℕ)
    → Without c p
    → IsString m a (p ++ c ∷ q)
    → length p < f
    → str_chr f m a c ≡ some (a + length p)
unfolding str_chr IsString Without
str_chr-found m c p q zero a w s enough = absurd (omega arith)
str_chr-found m c [] q (suc f) a w s enough =
    let e : a + 0 ≡ a = omega arith in rw (s.0, ==-eq_true c c refl, e) refl
str_chr-found m c (x ∷ p) q (suc f) a w s enough =
    rw
      (
        s.0,
        ==-eq_false x c w.0.0,
        ==-eq_false x 0 w.0.1,
        str_chr-found m c p q f (a + 1) w.1 s.1 (omega arith),
      )
      (ap some (omega arith))

str_chr-absent :
    (m : Disk) (c : ℕ) (p : List ℕ) (f a : ℕ)
    → c ≢ 0
    → Without c p
    → IsString m a p
    → str_chr f m a c ≡ none
unfolding str_chr IsString Without
str_chr-absent m c p zero a ne w s = refl
str_chr-absent m c [] (suc f) a ne w s = rw (s, ==-eq_false 0 c (λ e. ne (sym e))) refl
str_chr-absent m c (x ∷ p) (suc f) a ne w s =
    rw
      (s.0, ==-eq_false x c w.0.0, ==-eq_false x 0 w.0.1, str_chr-absent m c p f (a + 1) ne w.1 s.1)
      refl

same_bytes-prefix :
    (m : Disk) (p q : List ℕ) (a : ℕ) → IsString m a (p ++ q) → same_bytes m a p ≡ true
unfolding same_bytes IsString
same_bytes-prefix m [] q a s = refl
same_bytes-prefix m (x ∷ p) q a s =
    rw (s.0, ==-eq_true x x refl, same_bytes-prefix m p q (a + 1) s.1) refl

-- What another user and root get from the link `root?p:q`.
pub record Follows (rounds : ℕ) (m : Disk) (oi : ℕ) (p q : List ℕ) : Type 0 where
  pub of_user :
      (uid : ℕ)
      → uid ≢ 0
      → (a : ℕ) × (ospfs_follow_link rounds uid m oi ≡ link_at m a) × IsString m a q
  pub of_root :
      (m' : Disk) × (a : ℕ) × (ospfs_follow_link rounds 0 m oi ≡ link_at m' a)
      × IsString m' a p
      × (ospfs_follow_link rounds 0 m' oi ≡ oops)
      × ((uid : ℕ) → uid ≢ 0 → ospfs_follow_link rounds uid m' oi ≡ dangling m')

module _ (rounds : ℕ) (m : Disk) (oi : ℕ) (p q : List ℕ) (plain : Without colon p)
    (link : IsString m (oi_symlink oi) (root_prefix ++ (p ++ colon ∷ q)))
    (enough : length p + 6 ≤ rounds) where
  abbrev colon_at : ℕ
  colon_at = oi_symlink oi + 5 + length p

  abbrev cut : Disk
  cut = store m colon_at 0

  prefix-Without : Without colon (root_prefix ++ p)
  unfolding Without
  prefix-Without =
      let letter : (x : ℕ) → 58 < x → (x ≢ 58) × (x ≢ 0) =
        λ x h. ((λ e. omega arith), (λ e. omega arith)) in
      (
        letter 114 (omega arith),
        (
          letter 111 (omega arith),
          (letter 111 (omega arith), (letter 116 (omega arith), (letter 63 (omega arith), plain))),
        ),
      )

  colon_found : str_chr rounds m (oi_symlink oi) colon ≡ some colon_at
  colon_found =
      str_chr-found m colon (root_prefix ++ p) q rounds (oi_symlink oi) prefix-Without link
        (omega arith)
      ∙ ap some (omega arith)

  cut-IsString : IsString cut (oi_symlink oi) (root_prefix ++ p)
  cut-IsString =
      IsString-cut m (root_prefix ++ p) (colon ∷ q) (oi_symlink oi) colon_at (omega arith) link

  question_found : str_chr rounds cut (oi_symlink oi) question_mark ≡ some (oi_symlink oi + 4)
  unfolding Without
  question_found =
      let letter : (x : ℕ) → 63 < x → (x ≢ 63) × (x ≢ 0) =
        λ x h. ((λ e. omega arith), (λ e. omega arith)) in
      str_chr-found cut question_mark (114 ∷ 111 ∷ 111 ∷ 116 ∷ []) p rounds (oi_symlink oi)
        (
          letter 114 (omega arith),
          (letter 111 (omega arith), (letter 111 (omega arith), (letter 116 (omega arith), tt))),
        )
        cut-IsString (omega arith)

  colon_gone : str_chr rounds cut (oi_symlink oi) colon ≡ none
  colon_gone =
      str_chr-absent cut colon (root_prefix ++ p) rounds (oi_symlink oi) (omega arith)
        prefix-Without cut-IsString

  user_path : IsString m (colon_at + 1) q
  unfolding IsString
  user_path =
      let (_, rest) = IsString-suffix m (root_prefix ++ p) (colon ∷ q) (oi_symlink oi) link in
      let e : oi_symlink oi + length (root_prefix ++ p) + 1 ≡ colon_at + 1 = omega arith in
      rw e at rest

  root_path : IsString cut (oi_symlink oi + 5) p
  root_path = IsString-suffix cut root_prefix p (oi_symlink oi) cut-IsString

  is_conditional : same_bytes m (oi_symlink oi) root_prefix ≡ true
  is_conditional = same_bytes-prefix m root_prefix (p ++ colon ∷ q) (oi_symlink oi) link

  still_conditional : same_bytes cut (oi_symlink oi) root_prefix ≡ true
  still_conditional = same_bytes-prefix cut root_prefix p (oi_symlink oi) cut-IsString

-- `ospfs_follow_link` of a symbolic link `root?p:q` without a second colon in `p`: a user other than root
-- gets the path `q`, and the disk stays; root gets the path `p`, but the colon in the inode is then a null
-- character, so that the next access by root writes through NULL, and one by another user gives
-- `nd_set_link` the address 1.
pub ospfs_follow_link_lem :
    (rounds : ℕ) (m : Disk) (oi : ℕ) (p q : List ℕ)
    → Without colon p
    → IsString m (oi_symlink oi) (root_prefix ++ (p ++ colon ∷ q))
    → length p + 6 ≤ rounds
    → Follows rounds m oi p q
unfolding ospfs_follow_link next_to
ospfs_follow_link_lem rounds m oi p q plain link enough = record {
  of_user = λ uid other. (
    colon_at rounds m oi p q plain link enough + 1,
    rw
        (
          is_conditional rounds m oi p q plain link enough,
          ==-eq_false uid 0 other,
          colon_found rounds m oi p q plain link enough,
        )
        refl,
    user_path rounds m oi p q plain link enough,
  );
  of_root = (
    cut rounds m oi p q plain link enough,
    oi_symlink oi + 5,
    rw
        (
          is_conditional rounds m oi p q plain link enough,
          colon_found rounds m oi p q plain link enough,
          question_found rounds m oi p q plain link enough,
        )
        (ap (link_at (cut rounds m oi p q plain link enough)) next),
    root_path rounds m oi p q plain link enough,
    rw
        (
          still_conditional rounds m oi p q plain link enough,
          colon_gone rounds m oi p q plain link enough,
        )
        refl,
    λ uid other.
        rw
          (
            still_conditional rounds m oi p q plain link enough,
            ==-eq_false uid 0 other,
            colon_gone rounds m oi p q plain link enough,
          )
          refl,
  );
}
  where
    next : oi_symlink oi + 4 + 1 ≡ oi_symlink oi + 5
    next = omega arith
