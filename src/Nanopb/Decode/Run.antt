-- ===== src/Nanopb/Decode/Run.antt =====
-- The rounds of the loop of pb_decode_noinit of Kasei/Pods/nanopb/pb_decode.c, as steps between the
-- states of its local variables, the stream and the memory.
use kaseiapp.Base.{ℕ, ◌≡◌, true, false, List, [], ◌∷◌}
use kaseiapp.Nanopb.Istream.{Istream}
use kaseiapp.Nanopb.Read.{found, failed, pb_decode_tag}
use kaseiapp.Nanopb.Fields.{Iter, pb_field_iter_find}
use kaseiapp.Nanopb.Store.{Store, Result, User}
use kaseiapp.Nanopb.Progress.{Progress, finish_message}
use kaseiapp.Nanopb.Decode.{Nested, decode_known, decode_unknown}
use kaseiapp.Nanopb.Decode.Passes.{Passes}

-- The rounds from a state up to the result of the checks behind the loop, with the tags of the fields
-- that were decoded: decode_known goes on only after decode_field has returned true.
module _ (user : User) (nested : ℕ → Nested) where
  pub data Run : Progress → Istream → Store → List ℕ → Result → Type 0 where
    no_bytes :
        {pr : Progress} {s : Istream} {st : Store}
        → s.bytes_left ≡ 0
        → Run pr s st [] (finish_message pr s st)
    no_tag :
        {pr : Progress} {s t : Istream} {st : Store}
        → pb_decode_tag s ≡ (failed true, t)
        → Run pr s st [] (finish_message pr t st)
    known :
        {pr pr' : Progress} {s t u : Istream} {st st' : Store} {wire_type tag : ℕ} {iter : Iter}
        {tags : List ℕ} {r : Result}
        → pb_decode_tag s ≡ (found wire_type tag, t)
        → pb_field_iter_find tag pr.iter ≡ (true, iter)
        → Passes (decode_known user nested wire_type (record pr { iter = iter })) t st pr' u st'
        → Run pr' u st' tags r
        → Run pr s st (tag ∷ tags) r
    unknown :
        {pr pr' : Progress} {s t u : Istream} {st st' : Store} {wire_type tag : ℕ} {iter : Iter}
        {tags : List ℕ} {r : Result}
        → pb_decode_tag s ≡ (found wire_type tag, t)
        → pb_field_iter_find tag pr.iter ≡ (false, iter)
        → Passes
            (decode_unknown user nested tag wire_type (record pr { iter = iter }))
            t
            st
            pr'
            u
            st'
        → Run pr' u st' tags r
        → Run pr s st tags r
