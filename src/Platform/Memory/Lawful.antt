-- ===== src/Platform/Memory/Lawful.antt =====
-- The platform in memory meets the assumptions.
use confd.Prelude.{
  ℕ, ◌≡◌, refl, sym, ap, ◌∙◌, ◌≢◌, Bool, true, false, Option, none, some, [], ◌++◌, arith,
}
use mathlib.Core.Option.{some-injective}
use confd.Std.Text.{Text, codes}
use confd.Std.Result.{ok, err, ok_inj}
use confd.Std.Dict.{lookup, lookup-insert, lookup-erase, lookup-nil}
use confd.Platform.{File}
use confd.Platform.Laws.{FileModel, RenderModel, StoreModel}
use confd.Platform.Memory.{
  Disk, mem, file_at, put, drop_file, change, with_contents, create_temp, move_to, print, memory,
  read,
}

put_other : (p q : Text) (f : File) (d : Disk) → p ≢ q → file_at q (put p f d) ≡ file_at q d
put_other p q f d h = rw (lookup-insert p q f d.files) (ground arith)

put_self : (p : Text) (f : File) (d : Disk) → file_at p (put p f d) ≡ some f
put_self p f d = rw (lookup-insert p p f d.files) (ground arith)

drop_other : (p q : Text) (d : Disk) → p ≢ q → file_at q (drop_file p d) ≡ file_at q d
drop_other p q d h = rw (lookup-erase p q d.files) (ground arith)

change_other :
    (p q : Text) (g : File → File) (o : Option File) (d : Disk)
    → p ≢ q
    → file_at q (change p g o d) ≡ file_at q d
change_other p q g none d h = refl
change_other p q g (some f) d h = put_other p q (g f) d h

print_other :
    (p q : Text) (o : Option Text) (d : Disk) → p ≢ q → file_at q (print p o d).1 ≡ file_at q d
print_other p q none d h = refl
print_other p q (some v) d h = change_other p q _ (file_at p d) d h

create_other :
    (p q : Text) (o : Option File) (d : Disk)
    → p ≢ q
    → file_at q (create_temp p o d).1 ≡ file_at q d
create_other p q none d h = put_other p q _ d h
create_other p q (some f) d h = refl

create_fresh :
    (p n : Text) (o : Option File) (d : Disk)
    → file_at p d ≡ o
    → (create_temp p o d).0 ≡ ok n
    → file_at n d ≡ none
create_fresh p n none d e h = cc
create_fresh p n (some f) d e h = cc

create_named : (p n : Text) (o : Option File) (d : Disk) → (create_temp p o d).0 ≡ ok n → p ≡ n
create_named p n none d h = cc
create_named p n (some f) d h = cc

create_err :
    (p q e : Text) (o : Option File) (d : Disk)
    → (create_temp p o d).0 ≡ err e
    → file_at q (create_temp p o d).1 ≡ file_at q d
create_err p q e none d h = cc
create_err p q e (some f) d h = refl

move_other :
    (a b q : Text) (m : Bool) (o : Option File) (d : Disk)
    → a ≢ q
    → b ≢ q
    → file_at q (move_to a b m o d).1 ≡ file_at q d
move_other a b q m none d h k = refl
move_other a b q true (some f) d h k = refl
move_other a b q false (some f) d h k = put_other b q f (drop_file a d) k ∙ drop_other a q d h

move_ok :
    (a b : Text) (m : Bool) (o : Option File) (d : Disk)
    → (move_to a b m o d).0 ≡ ok tt
    → file_at b (move_to a b m o d).1 ≡ o
move_ok a b m none d h = cc
move_ok a b true (some f) d h = cc
move_ok a b false (some f) d h = put_self b f (drop_file a d)

move_err :
    (a b q e : Text) (m : Bool) (o : Option File) (d : Disk)
    → (move_to a b m o d).0 ≡ err e
    → file_at q (move_to a b m o d).1 ≡ file_at q d
move_err a b q e m none d h = refl
move_err a b q e true (some f) d h = refl
move_err a b q e false (some f) d h = cc

contents_of : (c : Text) (m : ℕ) (o : Option File) → (with_contents c m o).contents ≡ c
contents_of c m none = refl
contents_of c m (some f) = refl

read_found :
    (c : Text) (o : Option File) → read o ≡ ok c → (f : File) × (o ≡ some f) × (f.contents ≡ c)
read_found c none h = cc
read_found c (some f) h = (f, refl, ok_inj h)

change_contents :
    (p : Text) (g : File → File)
    → ((x : File) → (g x).contents ≡ x.contents)
    → (o : Option File) (d : Disk) (f : File) → o ≡ some f
    → (h : File) × (file_at p (change p g o d) ≡ some h) × (h.contents ≡ f.contents)
change_contents p g same_text none d f e = cc
change_contents p g same_text (some x) d f e =
    (g x, put_self p (g x) d, same_text x ∙ ap File.contents (some-injective _ _ e))

pub memory-FileModel : FileModel memory
memory-FileModel = record {
  file = file_at;
  stat_missing = λ p s h. ground arith;
  stat_none = λ p s h. rw h refl;
  open_ok = λ p s f h. ground arith;
  read_ok = λ p s c h. read_found c (file_at p s) h;
  temp_fresh = λ d b n s h. create_fresh _ n (file_at _ s) s refl h;
  temp_other = λ d b n q s h k.
      create_other _ q (file_at _ s) s (λ e. k (sym (create_named _ n (file_at _ s) s h) ∙ e));
  temp_err = λ d b q e s h. create_err _ q e (file_at _ s) s h;
  execute_other = λ t k n q s h. print_other n q (lookup t k) s h;
  remove_other = λ n q s h. drop_other n q s h;
  chmod_other = λ n q m s h. change_other n q _ (file_at n s) s h;
  chown_other = λ n q u g s h. change_other n q _ (file_at n s) s h;
  write_other = λ n q c m s h. put_other n q _ s h;
  write_ok = λ n c m s h. (_, put_self n _ s, contents_of c m (file_at n s));
  chown_contents = λ n u g s f h. change_contents n _ (λ x. refl) (file_at n s) s f h;
  rename_ok = λ a b s h. move_ok a b (mem b s.mounts) (file_at a s) s h;
  rename_other = λ a b q s h k. move_other a b q (mem b s.mounts) (file_at a s) s h k;
  rename_err = λ a b q e s h. move_err a b q e (mem b s.mounts) (file_at a s) s h;
}

-- The files of the model are those on the disk.
pub file-memory : (p : Text) (d : Disk) → memory-FileModel.file p d ≡ file_at p d
unfolding memory-FileModel
file-memory p d = refl

-- Every file on the disk can be opened.
pub opens-memory :
    (p : Text) (f : File) (d : Disk)
    → memory-FileModel.file p d ≡ some f
    → memory.open_file p d ≡ ok f
unfolding memory-FileModel
opens-memory p f d h = rw h refl

change_found :
    (p : Text) (g : File → File) (o : Option File) (d : Disk) (f : File)
    → o ≡ some f
    → file_at p (change p g o d) ≡ some (g f)
change_found p g none d f e = cc
change_found p g (some x) d f e = put_self p (g x) d ∙ ap some (ap g (some-injective _ _ e))

-- What a template of the machine prints: the value of its key.
abbrev value_or_nothing : Option Text → Text
value_or_nothing none = []
value_or_nothing (some v) = v

print_found :
    (n : Text) (o : Option Text) (s : Disk) (f : File)
    → file_at n s ≡ some f
    → (print n o s).0 ≡ ok tt
    → (g : File) × (file_at n (print n o s).1 ≡ some g) × (g.contents ≡ value_or_nothing o)
print_found n none s f e h = cc
print_found n (some v) s f e h =
    (record f { contents = v }, change_found n _ (file_at n s) s f e, refl)

create_empty :
    (p n : Text) (o : Option File) (d : Disk)
    → (create_temp p o d).0 ≡ ok n
    → (f : File) × (file_at n (create_temp p o d).1 ≡ some f) × (f.contents ≡ [])
create_empty p n none d h =
    let empty : File = record { uid = 0; gid = 0; mode = 384; contents = [] } in
    (empty, ap (λ q. file_at q (put p empty d)) (sym (ok_inj h)) ∙ put_self p empty d, refl)
create_empty p n (some f) d h = cc

pub memory-RenderModel : RenderModel memory memory-FileModel
unfolding memory-FileModel
memory-RenderModel = record {
  rendered = λ t k. value_or_nothing (lookup t k);
  temp_empty = λ d b n s h. create_empty _ n (file_at _ s) s h;
  execute_ok = λ t k n s f e c h. print_found n (lookup t k) s f e h;
  chmod_contents = λ n m s f h. change_contents n _ (λ x. refl) (file_at n s) s f h;
}

-- The name of a temporary file.
pub temp-memory :
    (d b n : Text) (s : Disk)
    → (memory.temp_file d b s).0 ≡ ok n
    → n ≡ d ++ (codes "/" ++ (b ++ codes "1"))
temp-memory d b n s h = sym (create_named _ n (file_at _ s) s h)

pub memory-StoreModel : StoreModel memory
memory-StoreModel = record {
  get-set = λ k v j m. lookup-insert k j v m;
  get-purge = λ j m. lookup-nil j;
}
