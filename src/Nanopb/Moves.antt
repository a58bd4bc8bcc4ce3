-- ===== src/Nanopb/Moves.antt =====
-- What every step of the iterator of Kasei/Pods/nanopb/pb_common.c keeps, the searches of it and of
-- Kasei/Pods/nanopb/pb_decode.c keep.
use kaseiapp.Base.{ℕ, zero, suc, Bool, ◌&&◌, ◌==◌, if-holds}
use kaseiapp.Base.Memory.{Memory, load}
use kaseiapp.Nanopb.Fields.{
  remaining, Iter, pb_field_iter_next, matches, find_loop, pb_field_iter_find,
}
use kaseiapp.Nanopb.Progress.{is_extension_at, find_extension_loop, find_extension_field}
use kaseiapp.Nanopb.DecodeCallback.{oneof_at, tag_at, holds_other, iter_after_release}

module _ (P : Iter → Type 0) (next : (iter : Iter) → P iter → P (pb_field_iter_next iter).1) where
  abbrev Found : Bool × Iter → Type 0
  Found (found, iter) = P iter

  find_loop-keeps :
      (rounds begun tag : ℕ) (iter : Iter) → P iter → P (find_loop rounds begun tag iter).1
  unfolding find_loop
  find_loop-keeps zero begun tag iter h = h
  find_loop-keeps (suc rounds) begun tag iter h =
      if-holds Found (matches tag iter.pos) _ _ (λ e. h)
        (λ e.
          if-holds Found (remaining (pb_field_iter_next iter).1.pos == begun) _ _
            (λ e'. next iter h) (λ e'. find_loop-keeps rounds begun tag _ (next iter h)))

  pub find-keeps : (tag : ℕ) (iter : Iter) → P iter → P (pb_field_iter_find tag iter).1
  unfolding pb_field_iter_find
  find-keeps tag iter h =
      find_loop-keeps (suc (remaining iter.start)) (remaining iter.pos) tag iter h

  extension_loop-keeps :
      (rounds begun : ℕ) (iter : Iter) → P iter → P (find_extension_loop rounds begun iter).1
  unfolding find_extension_loop
  extension_loop-keeps zero begun iter h = h
  extension_loop-keeps (suc rounds) begun iter h =
      if-holds Found (is_extension_at iter.pos) _ _ (λ e. h)
        (λ e.
          if-holds Found (remaining (pb_field_iter_next iter).1.pos == begun) _ _
            (λ e'. next iter h) (λ e'. extension_loop-keeps rounds begun _ (next iter h)))

  pub find_extension-keeps : (iter : Iter) → P iter → P (find_extension_field iter).1
  unfolding find_extension_field
  find_extension-keeps iter h =
      extension_loop-keeps (suc (remaining iter.start)) (remaining iter.pos) iter h

  pub after_release-keeps : (mem : Memory) (iter : Iter) → P iter → P (iter_after_release mem iter)
  unfolding iter_after_release
  after_release-keeps mem iter h =
      if-holds P (oneof_at iter.pos && holds_other mem iter) _ _
        (λ e. find-keeps (tag_at iter.pos) _ (find-keeps (load mem iter.size_at 4) iter h)) (λ e. h)
