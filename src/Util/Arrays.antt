-- ===== src/Util/Arrays.antt =====
-- The loops of src/uvw/util.h and util.ipp over the arrays that libuv allocates: `utilities::cpu`,
-- `utilities::interface_addresses` and `os::env(Func)`.
use mathlib.Core.List.{append-nil, append_assoc}
use mathlib.Core.Path.{subst₂}
use uvw.Util.Text.{c_string}
use uvw.Prelude.{
  ap, sym, length-append, Bool-cases, inl, inr, ◌>>=◌, ℕ, zero, suc, ◌≡◌, refl, ◌∙◌, Bool, true,
  false, not, Option, none, some, List, [], ◌∷◌, ◌++◌, map, ℤ, is_zero, ◌==◌, if◌then◌else◌, length,
  get_elem?, take, arith,
}
use uvw.Event.{SocketAddress}
use uvw.Util.Address.{Inet, sock_addr4, sock_addr6}

get_elem?-middle {ℓ} :
    {A : Type ℓ} (done rest : List A) (a : A) → get_elem? (done ++ a ∷ rest) (length done) ≡ some a
get_elem?-middle [] rest a = refl
get_elem?-middle (d ∷ done) rest a = get_elem?-middle done rest a

module _ {ℓ κ} {A : Type ℓ} {S : Type κ} where
  -- `for(int next = 0; next < count; ++next) { ... }` over an array: `left` is `count - next`, and
  -- `none` is a read outside of the array.
  unfoldable pub for_each : (left next : ℕ) → List A → (S → A → S) → S → Option S
  for_each zero next items body s = some s
  for_each (suc left) next items body s = elim (get_elem? items next) [
    | none ↦ none
    | some a ↦ for_each left (suc next) items body (body s a)
  ]

  unfoldable pub fold_left : (S → A → S) → S → List A → S
  fold_left body s [] = s
  fold_left body s (a ∷ as_) = fold_left body (body s a) as_

  for_each_from :
      (done rest : List A) (body : S → A → S) (s : S)
      → for_each (length rest) (length done) (done ++ rest) body s ≡ some (fold_left body s rest)
  unfolding for_each fold_left
  for_each_from done [] body s = refl
  for_each_from done (a ∷ rest) body s =
      rw (get_elem?-middle done rest a, for_each)
        (subst₂
          (λ n l.
            for_each (length rest) n l body (body s a) ≡ some (fold_left body (body s a) rest))
          (length-snoc done) (append_assoc done (a ∷ []) rest)
          (for_each_from (done ++ a ∷ []) rest body (body s a)))
    where
      length-snoc : (xs : List A) → length (xs ++ a ∷ []) ≡ suc (length xs)
      length-snoc xs = omega (arith, length-append xs (a ∷ []))

  -- A loop over a whole array reads nothing outside of it and runs its body on each entry in turn.
  pub for_each_lem :
      (items : List A) (body : S → A → S) (s : S)
      → for_each (length items) 0 items body s ≡ some (fold_left body s items)
  for_each_lem items body s = for_each_from [] items body s

fold_left-push {ℓ κ} :
    {A : Type ℓ} {B : Type κ} (f : A → B) (acc : List B) (items : List A)
    → fold_left (λ bs a. bs ++ f a ∷ []) acc items ≡ acc ++ map f items
unfolding fold_left
fold_left-push f acc [] = sym (append-nil acc)
fold_left-push f acc (a ∷ items) =
    fold_left-push f (acc ++ f a ∷ []) items ∙ append_assoc acc (f a ∷ []) (map f items)

-- `uv_cpu_info_t` and `cpu_info`, whose `times` are copied whole.
pub record CpuInfo : Type 0 where
  pub model : List ℕ
  pub speed : ℤ
  pub times : List ℕ

unfoldable pub to_cpu_info : CpuInfo → CpuInfo
unfolding c_string
to_cpu_info i = record { model = c_string i.model; speed = i.speed; times = i.times }

-- `rc`, `infos` and `count` are what `uv_cpu_info` gives.
unfoldable pub cpu : ℤ → List CpuInfo → ℕ → Option (List CpuInfo)
unfolding for_each to_cpu_info
cpu rc infos count =
    if is_zero rc
    then for_each count 0 infos (λ cpuinfos i. cpuinfos ++ to_cpu_info i ∷ []) []
    else some []

-- `uv_interface_address_t`: the address and the mask are the bytes of unions.
pub record RawInterface : Type 0 where
  pub name : List ℕ
  pub phys_addr : List ℕ
  pub is_internal : ℤ
  pub address : List ℕ
  pub netmask : List ℕ

-- `interface_address`: `none` is an address that the loop does not assign.
pub record InterfaceAddress : Type 0 where
  pub name : List ℕ
  pub physical : List ℕ
  pub internal : Bool
  pub address : Option SocketAddress
  pub netmask : Option SocketAddress

module _ (inet : Inet) where
  unfoldable pub addresses_of : RawInterface → Option SocketAddress × Option SocketAddress
  addresses_of i =
      if inet.family i.address == inet.af_inet
      then (some (sock_addr4 inet i.address), some (sock_addr4 inet i.netmask))
      else (if inet.family i.address == inet.af_inet6
          then (some (sock_addr6 inet i.address), some (sock_addr6 inet i.netmask))
          else (none, none))

  unfoldable pub to_interface : RawInterface → InterfaceAddress
  unfolding addresses_of c_string
  to_interface i = record {
    name = c_string i.name;
    physical = take 6 i.phys_addr;
    internal = not (is_zero i.is_internal);
    address = (addresses_of i).0;
    netmask = (addresses_of i).1;
  }

  unfoldable pub interface_addresses : ℤ → List RawInterface → ℕ → Option (List InterfaceAddress)
  unfolding for_each to_interface
  interface_addresses rc ifaces count =
      if is_zero rc
      then for_each count 0 ifaces (λ interfaces i. interfaces ++ to_interface i ∷ []) []
      else some []

  -- Both functions list every entry that libuv gives, in its order, read nothing outside of its
  -- array, and give an empty list where libuv fails.
  lists_entries :
      (rc : ℤ) (ifaces : List RawInterface) (infos : List CpuInfo)
      → (interface_addresses rc ifaces (length ifaces)
          ≡ some (if is_zero rc then map to_interface ifaces else []))
        × (cpu rc infos (length infos) ≡ some (if is_zero rc then map to_cpu_info infos else []))
  unfolding cpu interface_addresses
  lists_entries rc ifaces infos = elim (Bool-cases (is_zero rc)) [
    | inl ok ↦ (
      rw (ok, for_each_lem) (ap some (fold_left-push to_interface [] ifaces)),
      rw (ok, for_each_lem) (ap some (fold_left-push to_cpu_info [] infos)),
    )
    | inr err ↦ (rw err, rw err)
  ]

-- `utilities::os::env(Func)`: the calls of the user's function, with the names and values that
-- `uv_os_environ` gives, and whether it gave any.
unfoldable pub environ {κ} :
    {S : Type κ}
    → ℤ
    → List (List ℕ × List ℕ)
    → ℕ
    → (S → List ℕ × List ℕ → S)
    → S
    → Option (S × Bool)
unfolding for_each c_string
environ rc items count func s =
    if is_zero rc
    then (do
      s' ← for_each count 0 items (λ t i. func t (c_string i.0, c_string i.1)) s
      some (s', true))
    else some (s, false)
