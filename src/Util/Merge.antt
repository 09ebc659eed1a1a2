-- ===== src/Util/Merge.antt =====
-- util/file.go: the shell commands that merge the parts of a file and that remove a directory of parts.
use filestore_hsz.Prelude.{Text, bytes, text_eq, List, [], ◌∷◌, ◌++◌, Bool, true, false}
use filestore_hsz.Go.{Result, ok, err, Go, pure, call, ◌>>=◌}
use filestore_hsz.Common.{chunk_local_root_dir}
use filestore_hsz.Util.{Shell, newline, tab, replace_first, compute_sha1_by_shell}

-- The lines of a command, each behind a line break and a tab.
script : List Text → Text
script [] = []
script (l ∷ ls) = newline ++ tab ++ l ++ script ls

unfoldable pub merge_file_cmd : Text
unfolding script
merge_file_cmd = script (
    bytes "#!/bin/bash"
    ∷ bytes "# 需要进行合并的分片所在的目录"
    ∷ bytes "chunkDir=$1"
    ∷ bytes "# 合并后的文件的完成路径(目录＋文件名)"
    ∷ bytes "mergePath=$2"
    ∷ []
    ∷ bytes "echo \"分块合并，输入目录: \" $chunkDir"
    ∷ []
    ∷ bytes "if [ ! -f $mergePath ]; then"
    ∷ (tab ++ tab ++ bytes "echo \"$mergePath not exist\"")
    ∷ bytes "else"
    ∷ (tab ++ tab ++ bytes "rm -f $mergePath")
    ∷ bytes "fi"
    ∷ []
    ∷ bytes "for chunk in $(ls $chunkDir | sort -n)"
    ∷ bytes "do"
    ∷ (tab ++ tab ++ bytes "cat $chunkDir/${chunk} >> ${mergePath}")
    ∷ bytes "done"
    ∷ []
    ∷ bytes "echo \"合并完成，输出：\" mergePath"
    ∷ []
    ∷ [])

unfoldable pub file_chunks_del_cmd : Text
unfolding script
file_chunks_del_cmd = script (
    bytes "#!/bin/bash"
    ∷ bytes "chunkDir=\"#CHUNKDIR#\""
    ∷ bytes "targetDir=$1"
    ∷ bytes "# 增加条件判断，避免误删  (指定的路径包含且不等于chunkDir)"
    ∷ bytes "if [[ $targetDir =~ $chunkDir ]] && [[ $targetDir != $chunkDir ]]; then "
    ∷ bytes "  rm -rf $targetDir"
    ∷ bytes "fi"
    ∷ []
    ∷ [])

is_ok : Result Text → Bool
is_ok (ok out) = true
is_ok (err e) = false

is_digest : Result Text → Text → Bool
is_digest (err e) file_sha1 = false
is_digest (ok filehash) file_sha1 = text_eq filehash file_sha1

module _ {W : Type 0} (output : Shell W) where
  unfoldable pub remove_path_by_shell : Text → Go W Bool
  unfolding is_ok
  remove_path_by_shell dest_path = do
    r ← call (
        output (
          replace_first (replace_first file_chunks_del_cmd (bytes "$1") dest_path)
            (bytes "#CHUNKDIR#") chunk_local_root_dir))
    pure (is_ok r)

  checked : Text → Text → Result Text → Go W Bool
  unfolding is_digest
  checked dest_path file_sha1 (err e) = pure false
  checked dest_path file_sha1 (ok out) = do
    filehash ← compute_sha1_by_shell output dest_path
    pure (is_digest filehash file_sha1)

  unfoldable pub merge_chuncks_by_shell : Text → Text → Text → Go W Bool
  unfolding checked
  merge_chuncks_by_shell chunk_dir dest_path file_sha1 = do
    r ← call (
        output (
          replace_first (replace_first merge_file_cmd (bytes "$1") chunk_dir) (bytes "$2")
            dest_path))
    checked dest_path file_sha1 r
