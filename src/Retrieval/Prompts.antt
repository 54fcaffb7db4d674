-- ===== src/Retrieval/Prompts.antt =====
-- internal/rag/service.go: GenerationPrompts.
use dong_rag.Base.{◌++◌, Text, codes}

-- The system prompt and the user prompt.
unfoldable pub generation_prompts : Text → Text → Text × Text
generation_prompts question context = (
  codes "你是严谨的知识库问答助手。只能使用给定 Context 中明确陈述的信息，不得使用外部知识或自行推断。",
  codes "请根据 Context 直接回答 Question。\n"
      ++ codes "\n"
      ++ codes "规则：\n"
      ++ codes "1. 先完整覆盖问题要求的关键点，再删除重复解释和无关背景；不要复述问题。\n"
      ++ codes "2. 每个事实必须能由 Context 支持，并在对应句末标注来源编号，如 [1]；编号只能使用 Context 中已有编号。\n"
      ++ codes "3. 不得加入 Context 未陈述的原因、结论、例子或常识。\n"
      ++ codes "4. 如果 Context 没有足够信息回答，必须只回答“资料不足，我不知道。”，且不要添加引用。\n"
      ++ codes "\n"
      ++ codes "Context:\n"
      ++ context
      ++ codes "\nQuestion: "
      ++ question
      ++ codes "\nAnswer:",
)
