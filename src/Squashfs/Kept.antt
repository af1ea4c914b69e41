-- ===== src/Squashfs/Kept.antt =====
-- processDir and build of pkg/lib/squashfs/writer.go on a whole tree.
use sandal.Prelude.{refl, inl, inr, Bool, true, false, [], ◌∷◌, ◌++◌, Bool-cases, arith}
use sandal.Prelude.Words.{Bytes}
use sandal.Squashfs.Writer.{Zlib, IsZlib, Writer}
use sandal.Squashfs.Inodes.{build_symlink_inode}
use sandal.Squashfs.Growing.{IsTidy}
use sandal.Squashfs.Walk.{IsStep-trans, build_symlink_inode-IsStep}
use sandal.Squashfs.Tree.{
  Node, Entries, symlink, regular, directory, special, vanished, no_entries, entry, finish_dir,
  process_entries, process_node,
}
use sandal.Squashfs.Nodes.{
  node_count, count, node_bytes, all_bytes, NodeStable, AllStable, NodeHeld, AllHeld,
}
use sandal.Squashfs.Children.{NodeHeld-Grew, IsWalked, HasRoom, skipped, kept_file, kept_dir}

module _ (z : Zlib) (keep : Bytes → Bool → Bool) where
  mutual
    unfolding process_entries process_node node_count count node_bytes all_bytes NodeStable
        AllStable NodeHeld AllHeld build_symlink_inode finish_dir

    process_node-IsWalked :
        IsZlib z
        → (path name : Bytes) (x : Node) (w : Writer) → IsTidy z w
        → NodeStable x
        → HasRoom z keep (node_count x) (node_bytes x) w
        → IsWalked z keep
            (node_count x)
            (node_bytes x)
            (NodeHeld z keep path x)
            w
            (process_node z keep path name x w)
    process_node-IsWalked law path name (symlink a target) w t s room =
        elim (Bool-cases (keep path false)) [
          | inr e ↦ rw e (skipped z keep 1 0 _ w t tt)
          | inl e ↦ rw e (record {
            children =
                (record {
                  inode_num = (build_symlink_inode a target w).0;
                  inode_type = 3;
                  name = name;
                })
                ∷ [];
            last = (build_symlink_inode a target w).1;
            answer = refl;
            step = build_symlink_inode-IsStep z a target w t (omega (arith, room.for_inodes));
            fact = tt;
          })
        ]
    process_node-IsWalked law path name (regular a content size) w t s room =
        kept_file z keep law (keep path false) a content name size w s t room
    process_node-IsWalked law path name (directory a es) w t s room =
        kept_dir z keep (keep path true) a name path es w (count es) (all_bytes es) t
          (process_entries-IsWalked law path es w t s (record {
            for_inodes = omega (arith, room.for_inodes);
            for_bytes = room.for_bytes;
            for_fragments = omega (arith, room.for_fragments);
          }))
          (omega (arith, room.for_inodes))
    process_node-IsWalked law path name special w t s room = skipped z keep 1 0 _ w t tt
    process_node-IsWalked law path name vanished w t s room = skipped z keep 1 0 _ w t tt

    process_entries-IsWalked :
        IsZlib z
        → (rel : Bytes) (es : Entries) (w : Writer) → IsTidy z w
        → AllStable es
        → HasRoom z keep (count es) (all_bytes es) w
        → IsWalked z keep
            (count es)
            (all_bytes es)
            (AllHeld z keep rel es)
            w
            (process_entries z keep rel es w)
    process_entries-IsWalked law rel no_entries w t s room = skipped z keep 0 0 _ w t tt
    process_entries-IsWalked law rel (entry n x rest) w t (s, ss) room =
        let p = process_node-IsWalked law (rel ++ b'/' ∷ n) n x w t s (record {
          for_inodes = omega (arith, room.for_inodes);
          for_bytes = omega (arith, room.for_bytes);
          for_fragments = omega (arith, room.for_fragments);
        }) in
        let q = process_entries-IsWalked law rel rest p.last p.step.tidy ss (record {
          for_inodes = omega (arith, room.for_inodes, p.step.few_inodes);
          for_bytes = omega (arith, room.for_bytes, p.step.few_bytes);
          for_fragments = omega (arith, room.for_fragments, p.step.few_fragments);
        }) in
        record {
          children = p.children ++ q.children;
          last = q.last;
          answer = rw (p.answer, q.answer) refl;
          step =
              IsStep-trans z (node_count x) (count rest) (node_bytes x) (all_bytes rest) w p.last
                q.last p.step q.step;
          fact =
              (NodeHeld-Grew z keep (rel ++ b'/' ∷ n) x p.last q.last q.step.grew p.fact, q.fact);
        }
