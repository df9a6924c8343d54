-- ===== src/Info/Device/Laws.antt =====
-- The memory that the pods of a GPU take is the sum of what they ask for, to 64 bits.
use pinta_scheduler.Prelude.{
  ℕ, ◌+◌, ◌%◌, ◌<◌, ◌≡◌, refl, subst, Option, inl, inr, none, some, List, [], ◌∷◌, arith, str_eq,
  Bool-cases, if◌then◌else◌,
}
use pinta_scheduler.Prelude.Int.{
  ℤ, pos, negsuc, pos_part, neg_part, ◌+ℤ◌, +ℤ_parts, int_laws, +ℤ_zero, zero_+ℤ,
}
use pinta_scheduler.Dict.{Dict, lookup}
use pinta_scheduler.Api.{Container}
use pinta_scheduler.Info.Resource.{QuantityApi}
use pinta_scheduler.Info.Device.{
  Pod, GpuDevice, to_uint, gpu_resource_of_container, add_containers, gpu_resource_of_pod, add_pods,
  get_used_gpu_memory,
}

-- `m` is the integer `t` modulo 2^64.
pub record IsWord (t : ℤ) (m : ℕ) : Type 0 where
  pub small : m < 18446744073709551616
  pub congruent : (m + neg_part t) % 18446744073709551616 ≡ pos_part t % 18446744073709551616

to_uint-IsWord : (t : ℤ) → IsWord t (to_uint t)
unfolding to_uint
to_uint-IsWord (pos n) = record { small = omega arith; congruent = omega arith }
to_uint-IsWord (negsuc n) = record { small = omega arith; congruent = omega arith }

sum_words :
    (a b c d e f m n : ℕ)
    → e + b + d ≡ f + a + c
    → (m + b) % 18446744073709551616 ≡ a % 18446744073709551616
    → (n + d) % 18446744073709551616 ≡ c % 18446744073709551616
    → ((m + n) % 18446744073709551616 + f) % 18446744073709551616 ≡ e % 18446744073709551616
sum_words a b c d e f m n p k l = omega arith

add-IsWord :
    (s t : ℤ) (m n : ℕ) → IsWord s m → IsWord t n → IsWord (s +ℤ t) ((m + n) % 18446744073709551616)
add-IsWord s t m n h k = record {
  small = omega arith;
  congruent =
      sum_words (pos_part s) (neg_part s) (pos_part t) (neg_part t) (pos_part (s +ℤ t))
        (neg_part (s +ℤ t)) m n (+ℤ_parts s t) h.congruent k.congruent;
}

+ℤ_assoc : (a b c : ℤ) → a +ℤ b +ℤ c ≡ a +ℤ (b +ℤ c)
+ℤ_assoc a b c = omega int_laws

module _ {Q : Type 0} (q : QuantityApi Q) where
  -- What the limits of a container say of volcano.sh/gpu-memory, as an integer.
  abbrev pub limit : Container Q → ℤ
  limit c = elim (lookup "volcano.sh/gpu-memory" c.limits) [ none ↦ pos 0 | some v ↦ q.value v ]

  abbrev pub limits : List (Container Q) → ℤ
  limits [] = pos 0
  limits (c ∷ cs) = limit c +ℤ limits cs

  -- The pods in a phase that is not the last of their life.
  abbrev pub live : Dict (Pod Q) → Dict (Pod Q)
  live [] = []
  live ((key, pod) ∷ pods) =
      let rest = live pods in
      if str_eq pod.phase "Succeeded"
      then rest
      else if str_eq pod.phase "Failed"
      then rest
      else (key, pod) ∷ rest

  abbrev pub limits_of_pods : Dict (Pod Q) → ℤ
  limits_of_pods [] = pos 0
  limits_of_pods ((key, pod) ∷ pods) = limits pod.spec.containers +ℤ limits_of_pods pods

  container-IsWord : (c : Container Q) → IsWord (limit c) (gpu_resource_of_container q c)
  unfolding gpu_resource_of_container
  container-IsWord c = of_limit (lookup "volcano.sh/gpu-memory" c.limits)
    where
      of_limit :
          (o : Option Q)
          → IsWord
              (elim o [ none ↦ pos 0 | some v ↦ q.value v ])
              (elim o [ none ↦ 0 | some v ↦ to_uint (q.value v) ])
      of_limit none = record { small = omega arith; congruent = refl }
      of_limit (some v) = to_uint-IsWord (q.value v)

  containers-IsWord :
      (cs : List (Container Q)) (t : ℤ) (m : ℕ)
      → IsWord t m
      → IsWord (t +ℤ limits cs) (add_containers q cs m)
  unfolding add_containers
  containers-IsWord [] t m h = rw (+ℤ_zero t) h
  containers-IsWord (c ∷ cs) t m h =
      subst (λ x. IsWord x (add_containers q (c ∷ cs) m)) (+ℤ_assoc t (limit c) (limits cs))
        (containers-IsWord cs (t +ℤ limit c) _ (add-IsWord t (limit c) m _ h (container-IsWord c)))

  pods-IsWord :
      (pods : Dict (Pod Q)) (t : ℤ) (m : ℕ)
      → IsWord t m
      → IsWord (t +ℤ limits_of_pods (live pods)) (add_pods q pods m)
  unfolding add_pods gpu_resource_of_pod
  pods-IsWord [] t m h = rw (+ℤ_zero t) h
  pods-IsWord ((key, pod) ∷ pods) t m h = elim (Bool-cases (str_eq pod.phase "Succeeded")) [
    | inl succeeded ↦ rw succeeded (pods-IsWord pods t m h)
    | inr going ↦ elim (Bool-cases (str_eq pod.phase "Failed")) [
      | inl failed ↦ rw (going, failed) (pods-IsWord pods t m h)
      | inr running ↦
          let asked = limits pod.spec.containers in
          let used =
            subst (λ x. IsWord x (add_containers q pod.spec.containers 0)) (zero_+ℤ asked)
              (containers-IsWord pod.spec.containers (pos 0) 0
                (record { small = omega arith; congruent = refl })) in
          rw (going, running)
            (subst
              (λ x. IsWord x (
                add_pods q pods
                  ((m + add_containers q pod.spec.containers 0) % 18446744073709551616)))
              (+ℤ_assoc t asked (limits_of_pods (live pods)))
              (pods-IsWord pods (t +ℤ asked) _ (add-IsWord t asked m _ h used)))
    ]
  ]

  -- The memory in use on a device is below 2^64 and, modulo 2^64, the sum of the limits of
  -- volcano.sh/gpu-memory, as integers, of all containers of its pods but those that have succeeded or
  -- failed; a container without that limit counts for 0.
  pub get_used_gpu_memory_lem :
      (g : GpuDevice Q) → IsWord (limits_of_pods (live g.pod_map)) (get_used_gpu_memory q g)
  unfolding get_used_gpu_memory
  get_used_gpu_memory_lem g =
      subst (λ x. IsWord x (add_pods q g.pod_map 0)) (zero_+ℤ (limits_of_pods (live g.pod_map)))
        (pods-IsWord g.pod_map (pos 0) 0 (record { small = omega arith; congruent = refl }))
